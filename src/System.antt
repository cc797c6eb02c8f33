-- ===== src/System.antt =====
-- The driver of fpga-char/ on top of the device of qemu-fpga-char/: the bus between them, and what
-- the two do together.
pub mod Snapshot
pub mod Transfer
pub mod Roundtrip
pub mod Echo
pub mod Writers
pub mod Bulk
pub mod Readers
pub mod Handler
use linux_pcie_dma.Common.{ℕ, List, [], ◌++◌, u32}
use linux_pcie_dma.Device.{DeviceState}
use linux_pcie_dma.Device.Effects.{Effect}
use linux_pcie_dma.Device.Mmio.{virtine_fpga_mmio_read, virtine_fpga_mmio_write}
use linux_pcie_dma.Driver.{Mmio}

-- The device, and what its MMIO handlers have asked of QEMU so far.
pub record System : Type 0 where
  pub device : DeviceState
  pub asked : List Effect

-- An access of four bytes at an offset into BAR 0 calls the device's handler. A 32-bit load gives
-- the lower 32 bits of what the handler returns, and a 32-bit store hands 32 bits to it.
unfoldable pub device_bus : Mmio System
device_bus = record {
  ioread32 = λ s offset.
      let (value, device) = virtine_fpga_mmio_read s.device offset in
      (u32 value, record s { device = device });
  iowrite32 = λ value offset s.
      let (device, effects) = virtine_fpga_mmio_write s.device offset (u32 value) in
      record { device = device; asked = s.asked ++ effects };
}
