-- ===== src/Device/Machine/Ending.antt =====
-- The clean-up thread ends once it is told to stop, qemu-fpga-char/virtine_fpga.c:331-347 and
-- 484-488.
use linux_pcie_dma.Common.{ℕ, suc, ◌+◌, ◌≤◌, ◌<◌, ◌≡◌, refl, ◌∙◌, ◌⊎◌, inl, true, false, arith}
use linux_pcie_dma.Device.{DeviceState}
use linux_pcie_dma.Device.Machine.Refine.{IsFresh, handle_flags}
use linux_pcie_dma.Device.Machine.Progress.{works, Reach-IsStopped}
use linux_pcie_dma.Device.Machine.{
  CleanerPc, locking, testing, asleep, finished, Machine, woken, CleanerStep, lock, test_waits,
  wait, wake_spuriously, test_stops, test_cleans, begin, reset_doorbell, pop, copy, move, settle,
  decide, lock_iothread, raise, unlock_iothread, recount, unlock, dispatch, access, signal_bell,
  return, begin_unload, lock_uninit, stop, signal_stop, join, destroy_condition, destroy_lock,
  unref, Step, by_cleaner, by_guest, by_unload, Reach, later,
}

-- How many steps the thread has left when it is told to stop: out of its sleep, to its test, and to
-- its end.
abbrev pub steps_left : CleanerPc → ℕ
steps_left asleep = 3
steps_left locking = 2
steps_left testing = 1
steps_left _ = 0

steps_left-le : (pc : CleanerPc) → steps_left pc ≤ 3
steps_left-le asleep = omega arith
steps_left-le locking = omega arith
steps_left-le _ = omega arith

steps_left-woken : (pc : CleanerPc) → steps_left (woken pc) ≤ steps_left pc
steps_left-woken asleep = omega arith
steps_left-woken _ = omega arith

-- Any run from a state on, and how many of its steps are the thread's.
pub data Run (m : Machine) : Machine → Type 0 where
  here : Run m m
  step : {t u : Machine} → Run m t → Step t u → Run m u

abbrev pub thread_steps : {m t : Machine} → Run m t → ℕ
thread_steps here = 0
thread_steps (step run (by_cleaner st)) = suc (thread_steps run)
thread_steps (step run (by_guest st)) = thread_steps run
thread_steps (step run (by_unload st)) = thread_steps run

CleanerStep-ends :
    {m t : Machine}
    → m.device.fpga.stopping ≡ true
    → works m.cleaner ≡ false
    → CleanerStep m t
    → (t.device.fpga.stopping ≡ true)
      × (steps_left t.cleaner < steps_left m.cleaner)
      × (t.asked ≡ m.asked)
CleanerStep-ends s w (lock a b e) = ground arith
CleanerStep-ends s w (test_waits a b e) = ground arith
CleanerStep-ends s w (wait a e) = ground arith
CleanerStep-ends s w (wake_spuriously a e) = ground arith
CleanerStep-ends s w (test_stops a b e) = ground arith
CleanerStep-ends s w (test_cleans a b c e) = ground arith
CleanerStep-ends s w (begin a e) = ground arith
CleanerStep-ends s w (reset_doorbell a e) = ground arith
CleanerStep-ends s w (pop v a b e) = ground arith
CleanerStep-ends s w (copy v a e) = ground arith
CleanerStep-ends s w (move v a e) = ground arith
CleanerStep-ends s w (settle a e) = ground arith
CleanerStep-ends s w (decide a e) = ground arith
CleanerStep-ends s w (lock_iothread a b e) = ground arith
CleanerStep-ends s w (raise a e) = ground arith
CleanerStep-ends s w (unlock_iothread a e) = ground arith
CleanerStep-ends s w (recount a e) = ground arith
CleanerStep-ends s w (unlock a e) = ground arith

-- The guest and the unloading may wake the thread, which saves it a step, and ask nothing of QEMU in
-- its name.
others_wait :
    {m t : Machine} (st : Step m t)
    → m.device.fpga.stopping ≡ true
    → thread_steps (step here st) ≡ 0
    → (t.device.fpga.stopping ≡ true)
      × (steps_left t.cleaner ≤ steps_left m.cleaner)
      × (t.asked ≡ m.asked)
others_wait (by_cleaner st) s n = absurd (omega arith)
others_wait (by_guest (dispatch a g b e)) s n = ground arith
others_wait {m} (by_guest (access a g b e)) s n = ground (arith, handle_flags m.device a)
others_wait {m} (by_guest (signal_bell g e)) s n = ground (arith, steps_left-woken m.cleaner)
others_wait (by_guest (return g e)) s n = ground arith
others_wait (by_unload (begin_unload u b e)) s n = ground arith
others_wait (by_unload (lock_uninit u b e)) s n = ground arith
others_wait (by_unload (stop u e)) s n = ground arith
others_wait {m} (by_unload (signal_stop u e)) s n = ground (arith, steps_left-woken m.cleaner)
others_wait (by_unload (join u ended e)) s n = ground arith
others_wait (by_unload (destroy_condition u e)) s n = ground arith
others_wait (by_unload (destroy_lock u e)) s n = ground arith
others_wait (by_unload (unref u e)) s n = ground arith

Run-Reach : {s : DeviceState} {m t : Machine} → Reach s m → Run m t → Reach s t
Run-Reach r here = r
Run-Reach r (step run st) = later (Run-Reach r run) st

record Ends (m t : Machine) (steps : ℕ) : Type 0 where
  stopping : t.device.fpga.stopping ≡ true
  left : steps + steps_left t.cleaner ≤ steps_left m.cleaner
  asked : t.asked ≡ m.asked

Run-Ends :
    {s : DeviceState} {m t : Machine}
    → IsFresh s
    → Reach s m
    → m.device.fpga.stopping ≡ true
    → (run : Run m t) → Ends m t (thread_steps run)
Run-Ends fresh r s here = record { stopping = s; left = omega arith; asked = refl }
Run-Ends fresh r s (step run (by_cleaner st)) =
    let before = Run-Ends fresh r s run in
    let one =
      CleanerStep-ends before.stopping (Reach-IsStopped fresh (Run-Reach r run) before.stopping)
        st in
    record { stopping = one.0; left = omega arith; asked = one.2 ∙ before.asked }
Run-Ends fresh r s (step run (by_guest st)) =
    let before = Run-Ends fresh r s run in
    let one = others_wait (by_guest st) before.stopping refl in
    record { stopping = one.0; left = omega arith; asked = one.2 ∙ before.asked }
Run-Ends fresh r s (step run (by_unload st)) =
    let before = Run-Ends fresh r s run in
    let one = others_wait (by_unload st) before.stopping refl in
    record { stopping = one.0; left = omega arith; asked = one.2 ∙ before.asked }

-- In every run of a device that was started with the doorbell off and the stopping flag clear: once
-- the stopping flag is set, the thread makes three steps more at most, however the guest and
-- the unloading go on: it restores no further virtine and raises no further interrupt, and it has
-- ended unless some of the three steps are left.
pub thread_ends :
    {s : DeviceState} {m t : Machine}
    → IsFresh s
    → Reach s m
    → m.device.fpga.stopping ≡ true
    → (run : Run m t)
    → (thread_steps run + steps_left t.cleaner ≤ 3)
      × (t.asked ≡ m.asked)
      × ((t.cleaner ≡ finished) ⊎ (0 < steps_left t.cleaner))
thread_ends {m = m} {t = t} fresh r s run =
    let ends = Run-Ends fresh r s run in
    (
      omega (arith, ends.left, steps_left-le m.cleaner),
      ends.asked,
      ended t.cleaner (Reach-IsStopped fresh (Run-Reach r run) ends.stopping),
    )
  where
    ended : (pc : CleanerPc) → works pc ≡ false → (pc ≡ finished) ⊎ (0 < steps_left pc)
    ended finished w = inl refl
    ended _ w = ground arith
