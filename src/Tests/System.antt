-- ===== src/Tests/System.antt =====
-- Runs and instances for the driver on top of the device.
use linux_pcie_dma.Common.{
  refl, ◌≤◌, ℕ, ◌<◌, ◌≡◌, ◌≢◌, none, some, List, [], ◌∷◌, arith, All, ◌*◌, ◌+◌, ◌^◌, ◌/◌, u32,
}
use mathlib.Core.List.{map}
use linux_pcie_dma.Registers.Driver
use linux_pcie_dma.Fifo
use linux_pcie_dma.Device.{Holds}
use linux_pcie_dma.Device.Effects.{interrupts, Effect, dma_writes}
use linux_pcie_dma.Device.Cleanup.Rounds.{restore}
use linux_pcie_dma.Driver.{returns}
use linux_pcie_dma.Driver.Chardev.{fpga_char_write, fpga_char_ioctl, fpga_char_set_snapshot}
use linux_pcie_dma.Driver.Irq.Bounds.{numbered}
use linux_pcie_dma.Driver.Irq.{fetch_clean_virtines}
use linux_pcie_dma.System.{System, device_bus}
use linux_pcie_dma.System.Snapshot.{set_snapshot_lem}
use linux_pcie_dma.System.Transfer.{IsKept, fetch_clean_virtines_lem}
use linux_pcie_dma.System.Roundtrip.{clean_virtines, clean_virtines_lem}
use linux_pcie_dma.System.Bulk.{give_first_virtine}
use linux_pcie_dma.System.Readers.{lower_loaded, upper_loaded, readers_torn}
use linux_pcie_dma.System.Writers.{lower_stored, upper_stored, writers_mixed}
use linux_pcie_dma.Samples.{
  two_virtines, idle_device, cleaned_device, idle_device-Holds, cleaned_device-Holds,
  idle_device-IsCounting, system_of, user_memory, user_memory_first, user_memory_second,
}

clean_virtines_example :
    (effects : List Effect) × (after : System) × (clean_virtines user_memory
        (system_of idle_device)
        (64 ∷ 72 ∷ [])
      ≡ some (numbered 0 two_virtines, effects, after))
    × (dma_writes effects ≡ map (restore idle_device) two_virtines)
    × (interrupts effects * 2 ≤ 1 + 2)
    × (1 + 2 < interrupts effects * 2 + 2)
    × Holds after.device.fpga [] []
clean_virtines_example =
    clean_virtines_lem user_memory (system_of idle_device) (64 ∷ 72 ∷ []) two_virtines
      idle_device-Holds refl idle_device-IsCounting
      (user_memory_first, omega arith, (user_memory_second, omega arith, tt)) (omega arith)
      (omega arith)

fetch_clean_virtines_example :
    (after : System) × (fetch_clean_virtines device_bus 101 (system_of cleaned_device)
      ≡ some ((0, 0x100005000) ∷ (1, 0x6000) ∷ [], after))
    × All (λ (store : ℕ × ℕ). store.0 < Driver.num_possible_virtines) (numbered 0 two_virtines)
    × Holds after.device.fpga [] []
    × IsKept (system_of cleaned_device) after
fetch_clean_virtines_example =
    fetch_clean_virtines_lem 101 (system_of cleaned_device) [] two_virtines (omega arith)
      cleaned_device-Holds (omega arith)

-- Of the two addresses at 64 and 72 the first is handed over.
give_first_virtine_example :
    (after : System) × (fpga_char_write device_bus user_memory 5
        (system_of idle_device)
        64
        16
        Driver.rq_tail_offset_reg
      ≡ some (4 * ((16 + 3) / 4), after))
    × Holds after.device.fpga (Fifo.insert [] 0x100005000) []
    × IsKept (system_of idle_device) after
give_first_virtine_example =
    give_first_virtine user_memory 5 (system_of idle_device) 64 0x100005000 16 [] []
      idle_device-Holds user_memory_first (omega arith) (omega arith) (omega arith) (omega arith)

-- The size 0x6000 lies eight bytes behind the address.
set_snapshot_example :
    fpga_char_ioctl device_bus user_memory (system_of idle_device) fpga_char_set_snapshot 64
    ≡ some (
      returns 8,
      none,
      system_of (record idle_device { snapshot_addr = 0x100005000; snapshot_size = 0x6000 }),
    )
set_snapshot_example =
    set_snapshot_lem user_memory (system_of idle_device) 64 0x100005000 0x6000 user_memory_first
      user_memory_second

writers_mixed_example :
    Holds
      (upper_stored 0x100005000
        (lower_stored 0x300006000 (lower_stored 0x100005000 (system_of idle_device)))).device.fpga
      (Fifo.insert [] 0x100006000)
      []
    × (◌≢◌ {A = ℕ} 0x100006000 0x100005000)
    × (◌≢◌ {A = ℕ} 0x100006000 0x300006000)
writers_mixed_example =
    writers_mixed (system_of idle_device) 0x100005000 0x300006000 [] [] idle_device-Holds
      (omega arith) (omega arith) (omega arith) (omega arith)

readers_torn_example :
    (after : System) × (fetch_clean_virtines device_bus 2
        (lower_loaded (system_of cleaned_device)).1
      ≡ some ((0, 0x6000) ∷ [], after))
    × ((upper_loaded after).0 * 2 ^ 32 + (lower_loaded (system_of cleaned_device)).0
        ≡ u32 0x100005000)
    × (u32 0x100005000 ≢ 0x100005000)
    × Holds (upper_loaded after).1.device.fpga [] []
readers_torn_example =
    readers_torn 2 (system_of cleaned_device) 0x100005000 [] (0x6000 ∷ []) (omega arith)
      cleaned_device-Holds (omega arith) (omega arith)
