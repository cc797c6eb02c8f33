-- ===== src/Device/Machine/Rest/Restored.antt =====
-- The clean-up thread restores every virtine before it sleeps, qemu-fpga-char/virtine_fpga.c:327-397.
use linux_pcie_dma.Common.{
  ℕ, zero, suc, ◌+◌, ◌<◌, ◌≡◌, ◌≢◌, refl, sym, ap, ◌∙◌, true, [], ◌++◌, arith, ◌⊎◌, inl, inr,
}
use mathlib.Core.List.{append-nil}
use linux_pcie_dma.RingQueue.Invariant.{Represents}
use linux_pcie_dma.Device.{DeviceState, Holds}
use linux_pcie_dma.Device.Machine.Accounts.{Honest, Accounts, restored, in_hand}
use linux_pcie_dma.Device.Machine.Accounts.Run.{Reach-Accounts}
use linux_pcie_dma.Device.Machine.Batch.{CleanerSteps, no_more, and_then, CleanerSteps-trans}
use linux_pcie_dma.Device.Machine.Alone.{steps_owed, CleanerStep-steps_owed}
use linux_pcie_dma.Device.Machine.{
  CleanerPc, asleep, finished, Machine, CleanerStep, lock, test_waits, wait, wake_spuriously,
  test_stops, test_cleans, begin, reset_doorbell, pop, copy, move, settle, decide, lock_iothread,
  raise, unlock_iothread, recount, unlock, by_cleaner, Reach, later,
}
use linux_pcie_dma.Device.Machine.Rest.{
  will_clean, IsDue, IsAlone, next, CleanerStep-IsAlone, CleanerStep-IsDue, dirty_empty,
}

CleanerStep-accepted : {m t : Machine} → CleanerStep m t → t.accepted ≡ m.accepted
CleanerStep-accepted (lock a b e) = ground arith
CleanerStep-accepted (test_waits a b e) = ground arith
CleanerStep-accepted (wait a e) = ground arith
CleanerStep-accepted (wake_spuriously a e) = ground arith
CleanerStep-accepted (test_stops a b e) = ground arith
CleanerStep-accepted (test_cleans a b c e) = ground arith
CleanerStep-accepted (begin a e) = ground arith
CleanerStep-accepted (reset_doorbell a e) = ground arith
CleanerStep-accepted (pop v a b e) = ground arith
CleanerStep-accepted (copy v a e) = ground arith
CleanerStep-accepted (move v a e) = ground arith
CleanerStep-accepted (settle a e) = ground arith
CleanerStep-accepted (decide a e) = ground arith
CleanerStep-accepted (lock_iothread a b e) = ground arith
CleanerStep-accepted (raise a e) = ground arith
CleanerStep-accepted (unlock_iothread a e) = ground arith
CleanerStep-accepted (recount a e) = ground arith
CleanerStep-accepted (unlock a e) = ground arith

-- Where the thread alone comes to, asleep, with an empty ready queue.
record Rests (s : DeviceState) (m : Machine) : Type 0 where
  last : Machine
  steps : CleanerSteps m last
  reach : Reach s last
  honest : Honest reach
  sleeps : last.cleaner ≡ asleep
  empty : Represents last.device.fpga.rq []
  accepted : last.accepted ≡ m.accepted

IsDue-ended : (m : Machine) → IsDue m → m.cleaner ≢ finished
unfolding IsDue
IsDue-ended m d f = ground arith

IsDue-asleep : (m : Machine) → IsDue m → m.cleaner ≡ asleep → Represents m.device.fpga.rq []
unfolding IsDue
IsDue-asleep m d f = ground arith

rests :
    (fuel : ℕ) {s : DeviceState} {m : Machine} (r : Reach s m)
    → steps_owed m < fuel
    → Holds s.fpga [] []
    → Honest r
    → IsAlone m
    → IsDue m
    → Rests s m
rests zero r f h ok x d = absurd (omega arith)
rests (suc fuel) {s} {m} r f h ok x d = elim (sleeps_or_not m.cleaner) [
  | inl sleeps ↦ record {
    last = m;
    steps = no_more;
    reach = r;
    honest = ok;
    sleeps = sleeps;
    empty = IsDue-asleep m d sleeps;
    accepted = refl;
  }
  | inr awake ↦
      let (t, st, prompted) = next m m.cleaner refl x awake (IsDue-ended m d) in
      let rest =
        rests fuel (later r (by_cleaner st)) (omega (arith, CleanerStep-steps_owed st prompted)) h
          (ok, tt) (CleanerStep-IsAlone st x)
          (CleanerStep-IsDue st prompted x (Reach-Accounts r h ok) d) in
      record {
        last = rest.last;
        steps = CleanerSteps-trans (and_then no_more st) rest.steps;
        reach = rest.reach;
        honest = rest.honest;
        sleeps = rest.sleeps;
        empty = rest.empty;
        accepted = rest.accepted ∙ CleanerStep-accepted st;
      }
]
  where
    sleeps_or_not : (pc : CleanerPc) → (pc ≡ asleep) ⊎ (pc ≢ asleep)
    sleeps_or_not asleep = inl refl
    sleeps_or_not pc = inr (ground arith)

nothing_left :
    (m : Machine) (h : Accounts m)
    → m.cleaner ≡ asleep
    → h.dirty ≡ []
    → restored m.asked ≡ m.accepted
nothing_left m h a d =
    let none_held : in_hand m.cleaner ++ h.dirty ≡ [] = rw (a, d) refl in
    sym (append-nil (restored m.asked))
    ∙ ap (λ l. restored m.asked ++ l) (sym none_held)
    ∙ sym h.taken

-- From every reachable state of a device that began empty and whose guest hands over no address 0:
-- if the thread will come to the ready queue, because the doorbell is rung in time or a batch is
-- going on, then the thread, left alone, goes to sleep with the ready queue empty and every virtine
-- ever accepted restored, once and in order.
pub all_restored :
    {s : DeviceState} {m : Machine} (r : Reach s m)
    → Holds s.fpga [] []
    → Honest r
    → IsAlone m
    → will_clean m.cleaner m.device.fpga.doorbell ≡ true
    → (t : Machine) × CleanerSteps m t
      × (t.cleaner ≡ asleep)
      × Represents t.device.fpga.rq []
      × (t.accepted ≡ m.accepted)
      × (restored t.asked ≡ m.accepted)
unfolding IsDue
all_restored {m} r h ok x will =
    let rest = rests (steps_owed m + 1) r (omega arith) h ok x (inl will) in
    let accounts = Reach-Accounts rest.reach h rest.honest in
    let none_left =
      dirty_empty rest.last.device.fpga.rq accounts.dirty accounts.holds.ready rest.empty in
    (
      rest.last,
      rest.steps,
      rest.sleeps,
      rest.empty,
      rest.accepted,
      nothing_left rest.last accounts rest.sleeps none_left ∙ rest.accepted,
    )
