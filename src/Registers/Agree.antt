-- ===== src/Registers/Agree.antt =====
-- The two register maps, qemu-fpga-char/virtine_fpga.c and fpga-char/fpga_char_main.h, compared.
use linux_pcie_dma.Common.{ℕ, ◌+◌, ◌≤◌, ◌≡◌, ◌≢◌, ◌⊎◌, arith, refl}
use linux_pcie_dma.Registers
use linux_pcie_dma.Registers.Driver

-- The registers by name.
pub data Register : Type 0 where
  rq_head rq_tail rq_base doorbell is_processing cq_head cq_tail cq_base : Register
  batch_factor max_num_virtines snapshot_size snapshot_addr : Register

-- Where the device decodes a register, and where the driver accesses it.
abbrev pub device_offset : Register → ℕ
device_offset rq_head = Registers.rq_head_offset_reg
device_offset rq_tail = Registers.rq_tail_offset_reg
device_offset rq_base = Registers.rq_base_addr
device_offset doorbell = Registers.doorbell_reg
device_offset is_processing = Registers.is_processing_reg
device_offset cq_head = Registers.cq_head_offset_reg
device_offset cq_tail = Registers.cq_tail_offset_reg
device_offset cq_base = Registers.cq_base_addr
device_offset batch_factor = Registers.batch_factor_reg
device_offset max_num_virtines = Registers.max_num_virtines_reg
device_offset snapshot_size = Registers.snapshot_size_reg
device_offset snapshot_addr = Registers.snapshot_addr_reg

abbrev pub driver_offset : Register → ℕ
driver_offset rq_head = Driver.rq_head_offset_reg
driver_offset rq_tail = Driver.rq_tail_offset_reg
driver_offset rq_base = Driver.rq_base_addr
driver_offset doorbell = Driver.doorbell_reg
driver_offset is_processing = Driver.is_processing_reg
driver_offset cq_head = Driver.cq_head_offset_reg
driver_offset cq_tail = Driver.cq_tail_offset_reg
driver_offset cq_base = Driver.cq_base_addr
driver_offset batch_factor = Driver.batch_factor_reg
driver_offset max_num_virtines = Driver.max_num_virtines_reg
driver_offset snapshot_size = Driver.snapshot_size_reg
driver_offset snapshot_addr = Driver.snapshot_addr_reg

-- The driver and the device place every register at the same offset.
offsets_agree : (r : Register) → driver_offset r ≡ device_offset r
offsets_agree rq_head = refl
offsets_agree _ = refl

-- Two different registers of the device are at least eight bytes apart, so that the accesses to the
-- halves of one never meet the other.
pub offsets_apart :
    (r s : Register)
    → r ≢ s
    → (device_offset r + 8 ≤ device_offset s) ⊎ (device_offset s + 8 ≤ device_offset r)
offsets_apart r s ne = ground arith
