-- ===== src/Tests/Device.antt =====
-- Runs and instances for the device: realization, registers, clean-up, and the threads.
use linux_pcie_dma.Common.{
  ◌+◌, ◌*◌, ◌<◌, ◌≡◌, refl, true, false, Option, none, some, List, [], ◌∷◌, ◌++◌, length, take,
}
use mathlib.Core.List.{map}
use linux_pcie_dma.Registers.{num_possible_virtines}
use linux_pcie_dma.Device.{VirtineFpgaDevice, Holds}
use linux_pcie_dma.Device.Effects.{Effect, pci_dma_write, msi_notify, dma_writes, interrupts}
use linux_pcie_dma.Device.Cleanup.{process_batch, clean_ready, clean_while, clean_virtine}
use linux_pcie_dma.Device.Cleanup.Rounds.{processing_after, restore}
use linux_pcie_dma.Device.Cleanup.Batch.{process_batch_lem, process_batch_stuck}
use linux_pcie_dma.Device.Thread.{
  testing, asleep, quiet, loaded, Threads, Steps, Reach, start, later, lock, started,
}
use linux_pcie_dma.Device.Thread.Wakeups.{doorbell_lost}
use linux_pcie_dma.RingQueue.{pop_head, insert_tail}
use linux_pcie_dma.Samples.{
  behind_zero, full_queue, full_queue-Stores, two_virtines, loaded_device, loaded_device-Holds,
  loaded_device-IsCounting,
}

abbrev effects_of : Option (VirtineFpgaDevice × List Effect) → List Effect
effects_of none = []
effects_of (some (_, effects)) = effects

-- With one virtine counted before and a batch factor of two, the first of two raises an interrupt.
batch_run :
    effects_of (process_batch loaded_device)
    ≡ pci_dma_write 0x100005000 0x9000 8 ∷ msi_notify 0 ∷ pci_dma_write 0x6000 0x9000 8 ∷ []
unfolding process_batch clean_ready clean_while clean_virtine pop_head insert_tail
batch_run = refl

abbrev stuck_device : VirtineFpgaDevice
stuck_device = record loaded_device { rq = full_queue 1000 }

process_batch_stuck_example :
    process_batch stuck_device
    ≡ some (record stuck_device { is_card_processing = true; doorbell = false }, [])
process_batch_stuck_example = process_batch_stuck stuck_device behind_zero full_queue-Stores refl

process_batch_example :
    (after : VirtineFpgaDevice) × (effects : List Effect) × (process_batch loaded_device
      ≡ some (after, effects))
    × Holds after [] (take num_possible_virtines ([] ++ two_virtines))
    × (dma_writes effects ≡ map (restore loaded_device) two_virtines)
    × (interrupts effects * 2 + after.num_virtines_cleaned_already ≡ 1 + length two_virtines)
    × (after.num_virtines_cleaned_already < after.batch_factor)
    × (after.doorbell ≡ false)
    × (after.is_card_processing ≡ processing_after true two_virtines)
    × (restore after ≡ restore loaded_device)
    × (after.batch_factor ≡ 2)
    × (after.stopping ≡ false)
process_batch_example =
    process_batch_lem loaded_device two_virtines [] loaded_device-Holds loaded_device-IsCounting

-- The thread has reached its first test.
abbrev at_test : Threads
at_test = record started { thread = testing }

at_test-Reach : Reach at_test
at_test-Reach = later start (lock refl refl refl)

doorbell_lost_example :
    (t : Threads) × Steps at_test t
    × (t.thread ≡ asleep)
    × (t.doorbell ≡ true)
    × (t.bell ≡ quiet)
    × (t.uninit ≡ loaded)
doorbell_lost_example = doorbell_lost at_test at_test-Reach refl refl refl
