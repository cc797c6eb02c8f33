-- ===== src/System/Handler/Returned.antt =====
-- Every virtine comes back: the clean-up thread left alone, qemu-fpga-char/virtine_fpga.c:327-397, and
-- then the interrupt handler, fpga-char/fpga_char_main.c:205-237.
use linux_pcie_dma.Common.{
  ℕ, ◌+◌, ◌^◌, ◌<◌, ◌≡◌, sym, ap, ◌∙◌, true, some, List, [], ◌++◌, arith, All, All-split, length,
}
use mathlib.Core.Path.{subst}
use mathlib.Core.List.{append-nil}
use linux_pcie_dma.Registers.{num_possible_virtines}
use linux_pcie_dma.Fifo.{Fifo}
use linux_pcie_dma.RingQueue.Invariant.{Represents}
use linux_pcie_dma.Device.{DeviceState, Holds}
use linux_pcie_dma.Device.Machine.{CleanerPc, asleep, Machine, by_cleaner, Reach, later}
use linux_pcie_dma.Device.Machine.Accounts.{Honest, restored, in_hand, pending}
use linux_pcie_dma.Device.Machine.Accounts.Flow.{Within, Within-last, virtines_kept}
use linux_pcie_dma.Device.Machine.Batch.{CleanerSteps, no_more, and_then}
use linux_pcie_dma.Device.Machine.Rest.{will_clean, IsAlone, dirty_empty}
use linux_pcie_dma.Device.Machine.Rest.Restored.{all_restored}
use linux_pcie_dma.Driver.Irq.{fetch_clean_virtines}
use linux_pcie_dma.Driver.Irq.Bounds.{numbered, Inside}
use linux_pcie_dma.System.{System, device_bus}
use linux_pcie_dma.System.Transfer.{fetch_clean_virtines_lem}
use linux_pcie_dma.System.Handler.Run.{CleanerSteps-SameGuest}

-- A run on which the guest keeps its promises on virtines.
record Kept (s : DeviceState) (m : Machine) : Type 0 where
  reach : Reach s m
  honest : Honest reach
  within : Within reach

CleanerSteps-Kept : {s : DeviceState} {m t : Machine} → CleanerSteps m t → Kept s m → Kept s t
CleanerSteps-Kept no_more k = k
CleanerSteps-Kept (and_then steps st) k =
    let before = CleanerSteps-Kept steps k in
    let same = CleanerSteps-SameGuest (and_then no_more st) in
    record {
      reach = later before.reach (by_cleaner st);
      honest = (before.honest, tt);
      within = (
        before.within,
        omega (
          arith,
          Within-last before.reach before.within,
          ap length same.accepted,
          ap length same.fetched,
        ),
      );
    }

-- What the driver and QEMU see of a device at work.
abbrev pub system_at : Machine → System
system_at m = record { device = m.device; asked = m.asked }

-- Asleep over an empty ready queue, the thread has left in the completed queue just what the guest
-- has not fetched.
record Completed (t : Machine) : Type 0 where
  clean : Fifo
  holds : Holds t.device.fpga [] clean
  unfetched : t.accepted ≡ t.fetched ++ clean

nothing_held :
    (pc : CleanerPc) (gone dirty : List ℕ)
    → pc ≡ asleep
    → dirty ≡ []
    → (gone ++ pending pc) ++ (in_hand pc ++ dirty) ≡ gone
nothing_held pc gone dirty a d = rw (a, d) (append-nil (gone ++ []) ∙ append-nil gone)

rest_completed :
    {s : DeviceState} {t : Machine}
    → Kept s t
    → Holds s.fpga [] []
    → t.cleaner ≡ asleep
    → Represents t.device.fpga.rq []
    → Completed t
rest_completed {t = t} k h sleeps empty =
    let (dirty, clean, holds, _, kept) = virtines_kept k.reach h k.honest k.within in
    let none_left = dirty_empty t.device.fpga.rq dirty holds.ready empty in
    record {
      clean = clean;
      holds = record {
        ready = subst (Represents t.device.fpga.rq) none_left holds.ready;
        completed = holds.completed;
      };
      unfetched = kept ∙ nothing_held t.cleaner (t.fetched ++ clean) dirty sleeps none_left;
    }

-- From every reachable state of a device that began empty, whose guest hands over addresses of 64
-- bits that are not 0 and keeps at most a hundred virtines under way: if the thread will come to the
-- ready queue, then, left alone, it goes to sleep with every accepted virtine restored, once and in
-- order, and the interrupt handler that runs then ends, within its array, with those that the guest
-- had not fetched before, in order, and leaves both queues empty.
pub all_returned :
    {s : DeviceState} {m : Machine} (r : Reach s m)
    → Holds s.fpga [] []
    → Honest r
    → Within r
    → All (λ v. v < 2 ^ 64) m.accepted
    → IsAlone m
    → will_clean m.cleaner m.device.fpga.doorbell ≡ true
    → (t : Machine) × CleanerSteps m t
      × (t.cleaner ≡ asleep)
      × (restored t.asked ≡ m.accepted)
      × (got : List ℕ) × (after : System) × (fetch_clean_virtines device_bus
            (num_possible_virtines + 1)
            (system_at t)
          ≡ some (numbered 0 got, after))
      × Inside (numbered 0 got)
      × (m.fetched ++ got ≡ m.accepted)
      × Holds after.device.fpga [] []
all_returned {m = m} r h ok w words x will =
    let (t, steps, sleeps, empty, accepted, done) = all_restored r h ok x will in
    let same = CleanerSteps-SameGuest steps in
    let all =
      rest_completed (CleanerSteps-Kept steps (record { reach = r; honest = ok; within = w })) h
        sleeps empty in
    let whole : m.fetched ++ all.clean ≡ m.accepted =
      ap (λ l. l ++ all.clean) (sym same.fetched) ∙ sym all.unfetched ∙ accepted in
    let small =
      (All-split (λ v. v < 2 ^ 64) m.fetched all.clean
        (subst (All (λ v. v < 2 ^ 64)) (sym whole) words)).1 in
    let (after, read, inside, emptied, _) =
      fetch_clean_virtines_lem (num_possible_virtines + 1) (system_at t) [] all.clean
        (omega (arith, all.holds.completed.stores.fits)) all.holds small in
    (t, steps, sleeps, done, all.clean, after, read, inside, whole, emptied)
