-- ===== src/Device.antt =====
-- VirtineFpgaDevice, the emulated co-processor of qemu-fpga-char/virtine_fpga.c: its state, and
-- what `virtine_fpga_realize` makes of it. The children hold the register file (`Mmio`) and the
-- clean-up thread (`Cleanup`), and the proofs about each.
pub mod Effects
pub mod Realize
pub mod Mmio
pub mod Cleanup
pub mod Thread
pub mod Machine
use linux_pcie_dma.Common.{ℕ, Bool, ◌≡◌}
use linux_pcie_dma.Fifo.{Fifo}
use linux_pcie_dma.RingQueue.{VirtineRingQueue}
use linux_pcie_dma.RingQueue.Invariant.{Represents}

-- The members that QEMU itself works on (pdev, mmio, the thread, its lock and its condition) and
-- `irq_status`, which nothing reads or writes, are left out. `snapshot_addr` is an address.
pub record VirtineFpgaDevice : Type 0 where
  pub rq : VirtineRingQueue
  pub doorbell : Bool
  pub is_card_processing : Bool
  pub cq : VirtineRingQueue
  pub batch_factor : ℕ
  pub num_virtines_cleaned_already : ℕ
  pub snapshot_size : ℕ
  pub snapshot_addr : ℕ
  pub stopping : Bool

-- The device, and the two function-local statics of the MMIO handlers.
pub record DeviceState : Type 0 where
  pub fpga : VirtineFpgaDevice
  pub split_return : ℕ
  pub split_write : ℕ

-- The device's queues stand for two FIFOs: virtines to clean, and clean virtines.
pub record Holds (fpga : VirtineFpgaDevice) (dirty clean : Fifo) : Type 0 where
  pub ready : Represents fpga.rq dirty
  pub completed : Represents fpga.cq clean
