-- ===== src/Device/Machine/Accounts.antt =====
-- What becomes of each virtine in the device at work: invariants over all interleavings.
pub mod Cleaner
pub mod Guest
pub mod Run
pub mod Flow
use linux_pcie_dma.Common.{
  ℕ, ◌+◌, ◌<◌, ◌≡◌, refl, sym, ap, ◌∙◌, Bool, true, false, List, [], ◌∷◌, ◌++◌, arith, Bool-cases,
  inl, inr, ◌==◌, if◌then◌else◌, All, length, length-append, leb, u32,
}
use mathlib.Core.List.{map, map-append, append_assoc, append-nil}
use mathlib.Core.Path.{subst}
use linux_pcie_dma.Registers.{rq_tail_offset_reg, cq_head_offset_reg}
use linux_pcie_dma.Fifo
use linux_pcie_dma.Fifo.{Fifo}
use linux_pcie_dma.RingQueue.{VirtineRingQueue, pop_head, insert_tail}
use linux_pcie_dma.RingQueue.Invariant.{Represents}
use linux_pcie_dma.RingQueue.Pop.{pop_head_refines}
use linux_pcie_dma.RingQueue.Insert.{insert_tail_refines}
use linux_pcie_dma.Device.{DeviceState, Holds}
use linux_pcie_dma.Device.Effects.{Effect, pci_dma_write, msi_notify, dma_writes, dma_writes-append}
use linux_pcie_dma.Device.Mmio.{virtine_fpga_mmio_read}
use linux_pcie_dma.Device.Mmio.Access.{joined_address, write_queues}
use linux_pcie_dma.Device.Machine.{
  CleanerPc, GuestPc, popping, holding, copied, moved, unlocking, Access, reads, writes, Machine,
  with_fpga, woken, handle, has_room, accepts, takes, CleanerStep, lock, test_waits, wait,
  wake_spuriously, test_stops, test_cleans, begin, reset_doorbell, pop, copy, move, settle, decide,
  lock_iothread, raise, unlock_iothread, recount, unlock, GuestStep, dispatch, access, signal_bell,
  return, UnloadStep, begin_unload, lock_uninit, stop, signal_stop, Step, by_cleaner, by_guest,
  by_unload, started, Reach, start, later,
}

-- What the guest promises: the address that a write completes is not 0.
abbrev pub IsVirtine : DeviceState → Access → Type 0
IsVirtine s (reads addr) = Unit
IsVirtine s (writes addr val) = addr ≡ rq_tail_offset_reg + 4 → 0 < joined_address s val

abbrev pub HonestStep : {m t : Machine} → Step m t → Type 0
HonestStep {m} (by_guest (access a g b e)) = IsVirtine m.device a
HonestStep (by_guest _) = Unit
HonestStep (by_cleaner _) = Unit
HonestStep (by_unload _) = Unit

-- The guest keeps its promise at each step of a run.
abbrev pub Honest : {s : DeviceState} {m : Machine} → Reach s m → Type 0
Honest start = Unit
Honest (later r st) = Honest r × HonestStep st

-- The virtines that the snapshot was copied over, in order.
unfoldable pub restored : List Effect → List ℕ
restored effects = map (λ (w : ℕ × ℕ × ℕ). w.0) (dma_writes effects)

-- Popped and not yet restored; restored and not yet in the completed queue.
abbrev pub in_hand : CleanerPc → List ℕ
in_hand (holding v) = v ∷ []
in_hand _ = []

abbrev pub pending : CleanerPc → List ℕ
pending (copied v) = v ∷ []
pending _ = []

-- The third list holds the elements of the first two, each in its order.
pub data Merge : List ℕ → List ℕ → List ℕ → Type 0 where
  neither : Merge [] [] []
  left :
      {xs ys zs xs' zs' : List ℕ} (a : ℕ)
      → Merge xs ys zs
      → xs' ≡ xs ++ (a ∷ [])
      → zs' ≡ zs ++ (a ∷ [])
      → Merge xs' ys zs'
  right :
      {xs ys zs ys' zs' : List ℕ} (a : ℕ)
      → Merge xs ys zs
      → ys' ≡ ys ++ (a ∷ [])
      → zs' ≡ zs ++ (a ∷ [])
      → Merge xs ys' zs'

-- Where every virtine is: restored, in the thread's hands, or in the ready queue; and of the
-- restored ones, fetched, in the completed queue, dropped, or pending.
pub record Accounts (m : Machine) : Type 0 where
  pub dirty : Fifo
  pub clean : Fifo
  pub through : List ℕ
  pub holds : Holds m.device.fpga dirty clean
  pub taken : m.accepted ≡ restored m.asked ++ (in_hand m.cleaner ++ dirty)
  pub split : restored m.asked ≡ through ++ pending m.cleaner
  pub merged : Merge (m.fetched ++ clean) m.dropped through
  pub in_hand_nonzero : All (λ v. 0 < v) (in_hand m.cleaner)
  pub pending_nonzero : All (λ v. 0 < v) (pending m.cleaner)

-- A step that moves no virtine.
pub record Same (m t : Machine) : Type 0 where
  pub rq : t.device.fpga.rq ≡ m.device.fpga.rq
  pub cq : t.device.fpga.cq ≡ m.device.fpga.cq
  pub in_hand_same : in_hand t.cleaner ≡ in_hand m.cleaner
  pub pending_same : pending t.cleaner ≡ pending m.cleaner
  pub restored_same : restored t.asked ≡ restored m.asked
  pub accepted : t.accepted ≡ m.accepted
  pub fetched : t.fetched ≡ m.fetched
  pub dropped : t.dropped ≡ m.dropped

pub Same-Accounts : {m t : Machine} → Same m t → Accounts m → Accounts t
Same-Accounts {m} {t} s h = record {
  dirty = h.dirty;
  clean = h.clean;
  through = h.through;
  holds = record { ready = rw s.rq h.holds.ready; completed = rw s.cq h.holds.completed };
  taken = rw (s.accepted, s.restored_same, s.in_hand_same) h.taken;
  split = rw (s.restored_same, s.pending_same) h.split;
  merged = rw (s.fetched, s.dropped) h.merged;
  in_hand_nonzero = rw s.in_hand_same h.in_hand_nonzero;
  pending_nonzero = rw s.pending_same h.pending_nonzero;
}

pub restored-msi : (es : List Effect) (n : ℕ) → restored (es ++ (msi_notify n ∷ [])) ≡ restored es
unfolding restored
restored-msi es n = rw (dma_writes-append es (msi_notify n ∷ []), append-nil)

pub restored-copy :
    (es : List Effect) (v source size : ℕ)
    → restored (es ++ (pci_dma_write v source size ∷ [])) ≡ restored es ++ (v ∷ [])
unfolding restored
restored-copy es v source size =
    rw (dma_writes-append es (pci_dma_write v source size ∷ []))
      (map-append (λ (w : ℕ × ℕ × ℕ). w.0) (dma_writes es) ((v, source, size) ∷ []))

pub in_hand-woken : (pc : CleanerPc) → in_hand (woken pc) ≡ in_hand pc
in_hand-woken CleanerPc.asleep = refl
in_hand-woken _ = refl

pub pending-woken : (pc : CleanerPc) → pending (woken pc) ≡ pending pc
pending-woken CleanerPc.asleep = refl
pending-woken _ = refl

-- The returned pointer tells whether there was room.
pub has_room_lem :
    {queue : VirtineRingQueue} (xs : Fifo) (x : ℕ)
    → Represents queue xs
    → 0 < x
    → has_room queue x ≡ Fifo.has_room xs
has_room_lem {queue} xs x r pos = let moved = (insert_tail_refines xs x r pos).2 in ground arith
