-- ===== src/Device/Machine/Rest.antt =====
-- The clean-up thread finishes its work: qemu-fpga-char/virtine_fpga.c:327-397 run from any reachable
-- state until the thread sleeps.
pub mod Restored
use linux_pcie_dma.Common.{
  ℕ, zero, suc, ◌+◌, ◌<◌, ◌≤◌, ◌≡◌, ◌≢◌, refl, sym, ap, ◌∙◌, Bool, true, false, ◌||◌, List, [], ◌∷◌,
  ◌++◌, arith, ◌⊎◌, inl, inr, Bool-cases, ◌==◌, if◌then◌else◌,
}
use mathlib.Core.List.{append-nil}
use linux_pcie_dma.Fifo
use linux_pcie_dma.Fifo.{Fifo}
use linux_pcie_dma.RingQueue.{VirtineRingQueue, pop_head}
use linux_pcie_dma.RingQueue.Invariant.{Represents}
use linux_pcie_dma.RingQueue.Pop.{pop_head_refines}
use linux_pcie_dma.Device.{DeviceState, Holds}
use linux_pcie_dma.Device.Machine.Accounts.{Honest, Accounts, restored, in_hand}
use linux_pcie_dma.Device.Machine.Accounts.Run.{Reach-Accounts}
use linux_pcie_dma.Device.Machine.Batch.{CleanerSteps, no_more, and_then, CleanerSteps-trans}
use linux_pcie_dma.Device.Machine.Alone.{steps_owed, is_prompted, CleanerStep-steps_owed}
use linux_pcie_dma.Device.Machine.{
  CleanerPc, locking, testing, entering_wait, asleep, beginning, resetting, popping, holding,
  copied, moved, deciding, notifying, raising, raised, recounting, unlocking, finished, GuestPc,
  outside, UnloadPc, plugged, must_wait, Machine, CleanerStep, lock, test_waits, wait,
  wake_spuriously, test_stops, test_cleans, begin, reset_doorbell, pop, copy, move, settle, decide,
  lock_iothread, raise, unlock_iothread, recount, unlock, by_cleaner, Reach, start, later,
}

-- Whether the thread will look into the ready queue before it sleeps: it is in a batch, or will come
-- to its test with the doorbell rung.
abbrev pub will_clean : CleanerPc → Bool → Bool
will_clean locking doorbell = doorbell
will_clean testing doorbell = doorbell
will_clean entering_wait doorbell = false
will_clean asleep doorbell = false
will_clean unlocking doorbell = doorbell
will_clean finished doorbell = false
will_clean _ doorbell = true

-- Between a batch and the sleep.
abbrev goes_to_sleep : CleanerPc → Bool
goes_to_sleep locking = true
goes_to_sleep testing = true
goes_to_sleep entering_wait = true
goes_to_sleep asleep = true
goes_to_sleep unlocking = true
goes_to_sleep _ = false

IsDue : Machine → Type 0
IsDue m =
    (will_clean m.cleaner m.device.fpga.doorbell ≡ true)
    ⊎ (Represents m.device.fpga.rq [] × (goes_to_sleep m.cleaner ≡ true))

-- Nobody else is about to do anything.
pub record IsAlone (m : Machine) : Type 0 where
  pub running : m.device.fpga.stopping ≡ false
  pub guest : m.guest ≡ outside
  pub unload : m.unload ≡ plugged

abbrev Next : Machine → Type 0
Next m = (t : Machine) × (st : CleanerStep m t) × (is_prompted st ≡ true)

next :
    (m : Machine) (pc : CleanerPc)
    → m.cleaner ≡ pc
    → IsAlone m
    → pc ≢ asleep
    → pc ≢ finished
    → Next m
next m locking c a s f = (_, lock c (ground (arith, a.unload)) refl, refl)
next m testing c a s f = elim (Bool-cases (must_wait m)) [
  | inl waits ↦ (_, test_waits c waits refl, refl)
  | inr rung ↦ (_, test_cleans c rung a.running refl, refl)
]
next m entering_wait c a s f = (_, wait c refl, refl)
next m asleep c a s f = absurd (s refl)
next m beginning c a s f = (_, begin c refl, refl)
next m resetting c a s f = (_, reset_doorbell c refl, refl)
next m popping c a s f = (_, pop _ c refl refl, refl)
next m (holding v) c a s f = (_, copy v c refl, refl)
next m (copied v) c a s f = (_, move v c refl, refl)
next m moved c a s f = (_, settle c refl, refl)
next m deciding c a s f = (_, decide c refl, refl)
next m notifying c a s f = (_, lock_iothread c (ground (arith, a.guest, a.unload)) refl, refl)
next m raising c a s f = (_, raise c refl, refl)
next m raised c a s f = (_, unlock_iothread c refl, refl)
next m recounting c a s f = (_, recount c refl, refl)
next m unlocking c a s f = (_, unlock c refl, refl)
next m finished c a s f = absurd (f refl)

CleanerStep-IsAlone : {m t : Machine} → CleanerStep m t → IsAlone m → IsAlone t
CleanerStep-IsAlone (lock a b e) h = ground arith
CleanerStep-IsAlone (test_waits a b e) h = ground arith
CleanerStep-IsAlone (wait a e) h = ground arith
CleanerStep-IsAlone (wake_spuriously a e) h = ground arith
CleanerStep-IsAlone (test_stops a b e) h = ground arith
CleanerStep-IsAlone (test_cleans a b c e) h = ground arith
CleanerStep-IsAlone (begin a e) h = ground arith
CleanerStep-IsAlone (reset_doorbell a e) h = ground arith
CleanerStep-IsAlone (pop v a b e) h = ground arith
CleanerStep-IsAlone (copy v a e) h = ground arith
CleanerStep-IsAlone (move v a e) h = ground arith
CleanerStep-IsAlone (settle a e) h = ground arith
CleanerStep-IsAlone (decide a e) h = ground arith
CleanerStep-IsAlone (lock_iothread a b e) h = ground arith
CleanerStep-IsAlone (raise a e) h = ground arith
CleanerStep-IsAlone (unlock_iothread a e) h = ground arith
CleanerStep-IsAlone (recount a e) h = ground arith
CleanerStep-IsAlone (unlock a e) h = ground arith

-- A pop that finds nothing leaves an empty queue.
pop_head-nothing :
    (queue : VirtineRingQueue) (dirty : Fifo)
    → Represents queue dirty
    → (pop_head queue).0 ≡ 0
    → Represents (pop_head queue).1 []
unfolding Fifo.pop
pop_head-nothing queue [] r z = (pop_head_refines [] r).1
pop_head-nothing queue (x ∷ dirty) r z =
    let value = (pop_head_refines (x ∷ dirty) r).0 in absurd (omega (arith, value, r.nonzero.0))

-- Two lists that a queue represents are both empty if one is.
pub dirty_empty :
    (queue : VirtineRingQueue) (dirty : Fifo)
    → Represents queue dirty
    → Represents queue []
    → dirty ≡ []
unfolding Fifo.pop
dirty_empty queue [] r z = refl
dirty_empty queue (x ∷ dirty) r z =
    let value = (pop_head_refines (x ∷ dirty) r).0 in
    let nothing = (pop_head_refines [] z).0 in absurd (omega (arith, value, nothing, r.nonzero.0))

CleanerStep-IsDue :
    {m t : Machine} (st : CleanerStep m t)
    → is_prompted st ≡ true
    → IsAlone m
    → Accounts m
    → IsDue m
    → IsDue t
unfolding IsDue
CleanerStep-IsDue (lock a b e) p x h d = ground arith
CleanerStep-IsDue (test_waits a b e) p x h d = ground arith
CleanerStep-IsDue (wait a e) p x h d = ground arith
CleanerStep-IsDue (wake_spuriously a e) p x h d = cc
CleanerStep-IsDue (test_stops a b e) p x h d = ground (arith, x.running)
CleanerStep-IsDue (test_cleans a b c e) p x h d = ground arith
CleanerStep-IsDue (begin a e) p x h d = ground arith
CleanerStep-IsDue (reset_doorbell a e) p x h d = ground arith
CleanerStep-IsDue {m} (pop v a b e) p x h d = elim (Bool-cases (v == 0)) [
  | inl z ↦
      let empty = pop_head-nothing m.device.fpga.rq h.dirty h.holds.ready (ground arith) in
      rw e (inr (empty, ground arith))
  | inr n ↦ inl (ground arith)
]
CleanerStep-IsDue (copy v a e) p x h d = ground arith
CleanerStep-IsDue (move v a e) p x h d = ground arith
CleanerStep-IsDue (settle a e) p x h d = ground arith
CleanerStep-IsDue (decide a e) p x h d = ground arith
CleanerStep-IsDue (lock_iothread a b e) p x h d = ground arith
CleanerStep-IsDue (raise a e) p x h d = ground arith
CleanerStep-IsDue (unlock_iothread a e) p x h d = ground arith
CleanerStep-IsDue (recount a e) p x h d = ground arith
CleanerStep-IsDue (unlock a e) p x h d = ground arith
