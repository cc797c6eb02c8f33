-- ===== src/Tests/Unload.antt =====
-- A run that unloads the device, and the theorems on its end at it.
use linux_pcie_dma.Common.{◌+◌, ◌≤◌, ◌<◌, ◌≡◌, ◌⊎◌, ◌||◌, refl, true, false}
use linux_pcie_dma.Device.{DeviceState}
use linux_pcie_dma.Device.Machine.{
  finished, outside, Machine, cleaner_has_lock, unload_has_lock, lock, test_stops, begin_unload,
  lock_uninit, stop, signal_stop, join, Step, by_cleaner, by_unload, Reach, start, later,
}
use linux_pcie_dma.Device.Machine.Teardown.{is_torn_down, is_by_unload, teardown_safe}
use linux_pcie_dma.Device.Machine.Ending.{Run, here, step, thread_steps, steps_left, thread_ends}
use linux_pcie_dma.Samples.{loaded_device, state_of}

-- The doorbell was never rung, and two virtines wait.
abbrev quiet : DeviceState
quiet = state_of (record loaded_device { doorbell = false })

-- The unloading has set the flag.
abbrev Told : Type 0
Told = (m : Machine) × Reach quiet m × (m.device.fpga.stopping ≡ true)

abbrev told : Told
told = (
  _,
  later
      (later (later start (by_unload (begin_unload refl refl refl)))
        (by_unload (lock_uninit refl refl refl)))
      (by_unload (stop refl refl)),
  refl,
)

-- The thread ends and is joined.
abbrev Joined : Type 0
Joined = (m : Machine) × Run told.0 m × (is_torn_down m.unload ≡ true)

abbrev joined : Joined
joined = (
  _,
  step
      (step
        (step (step here (by_unload (signal_stop refl refl))) (by_cleaner (lock refl refl refl)))
        (by_cleaner (test_stops refl refl refl)))
      (by_unload (join refl refl refl)),
  refl,
)

joined-Reach : Reach quiet joined.0
joined-Reach =
    later
      (later
        (later (later told.1 (by_unload (signal_stop refl refl)))
          (by_cleaner (lock refl refl refl)))
        (by_cleaner (test_stops refl refl refl)))
      (by_unload (join refl refl refl))

teardown_safe_example :
    (joined.0.cleaner ≡ finished)
    × (joined.0.guest ≡ outside)
    × (cleaner_has_lock joined.0.cleaner || unload_has_lock joined.0.unload ≡ false)
    × ((t : Machine) (st : Step joined.0 t) → is_by_unload st ≡ true)
teardown_safe_example = teardown_safe joined-Reach joined.2

thread_ends_example :
    (thread_steps joined.1 + steps_left joined.0.cleaner ≤ 3)
    × (joined.0.asked ≡ told.0.asked)
    × ((joined.0.cleaner ≡ finished) ⊎ (0 < steps_left joined.0.cleaner))
thread_ends_example =
    thread_ends (record { doorbell = refl; stopping = refl }) told.1 told.2 joined.1
