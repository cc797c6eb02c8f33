-- ===== src/Tests/Interrupts.antt =====
-- A run of the whole device to an interrupt, and the theorems on interrupts at it.
use linux_pcie_dma.Common.{◌+◌, ◌*◌, ◌≤◌, ◌≡◌, refl, arith}
use linux_pcie_dma.RingQueue.{pop_head, insert_tail}
use linux_pcie_dma.Device.{DeviceState}
use linux_pcie_dma.Device.Effects.{interrupts}
use linux_pcie_dma.Device.Machine.{
  raised, lock, test_cleans, begin, reset_doorbell, pop, copy, move, settle, decide, lock_iothread,
  raise, Machine, by_cleaner, Reach, start, later,
}
use linux_pcie_dma.Device.Machine.Interrupts.{num_restored}
use linux_pcie_dma.Device.Machine.Interrupts.Counter.{
  Steady, uncounted, unreset, interrupts_counted,
}
use linux_pcie_dma.Samples.{loaded_device, loaded_device-IsCounting, state_of}

-- Two dirty virtines, a batch factor of two, and one virtine counted before.
abbrev rung_device : DeviceState
rung_device = state_of loaded_device

abbrev Interrupted : Type 0
Interrupted = (m : Machine) × (r : Reach rung_device m) × Steady r × (m.cleaner ≡ raised)

-- The thread restores the first virtine and raises an interrupt for it.
interrupted : Interrupted
unfolding pop_head insert_tail
interrupted =
    let r0 : Reach rung_device _ =
      later
        (later
          (later (later start (by_cleaner (lock refl refl refl)))
            (by_cleaner (test_cleans refl refl refl refl)))
          (by_cleaner (begin refl refl)))
        (by_cleaner (reset_doorbell refl refl)) in
    let r1 =
      later
        (later (later r0 (by_cleaner (pop 0x100005000 refl refl refl)))
          (by_cleaner (copy 0x100005000 refl refl)))
        (by_cleaner (move 0x100005000 refl refl)) in
    let r2 =
      later
        (later (later (later r1 (by_cleaner (settle refl refl))) (by_cleaner (decide refl refl)))
          (by_cleaner (lock_iothread refl refl refl)))
        (by_cleaner (raise refl refl)) in
    (_, r2, omega arith, refl)

interrupts_counted_example :
    (interrupts interrupted.0.asked * 2
        + interrupted.0.device.fpga.num_virtines_cleaned_already
        + uncounted interrupted.0.cleaner
      ≡ 1 + num_restored interrupted.0.asked + unreset interrupted.0.cleaner 2)
    × (interrupted.0.device.fpga.num_virtines_cleaned_already ≤ 2)
    × (interrupted.0.device.fpga.batch_factor ≡ 2)
interrupts_counted_example = interrupts_counted interrupted.1 loaded_device-IsCounting interrupted.2
