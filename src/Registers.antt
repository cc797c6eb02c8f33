-- ===== src/Registers.antt =====
-- The register map of BAR 0, as the device and as the driver spell it:
-- qemu-fpga-char/virtine_fpga.c (constants of this file, `sizeof(hwaddr)` and
-- `sizeof(unsigned long)` being 8) and fpga-char/fpga_char_main.h (module `Registers.Driver`).
pub mod Driver
pub mod Agree
use linux_pcie_dma.Common.{ℕ, ◌+◌, ◌*◌}

-- `sizeof(hwaddr)`, a uint64_t, and `sizeof(unsigned long)` on amd64.
abbrev pub sizeof_hwaddr : ℕ
sizeof_hwaddr = 8

abbrev pub sizeof_unsigned_long : ℕ
sizeof_unsigned_long = 8

abbrev pub mmio_base_addr : ℕ
mmio_base_addr = 0x0

abbrev pub num_possible_virtines : ℕ
num_possible_virtines = 100

abbrev pub rq_head_offset_reg : ℕ
rq_head_offset_reg = mmio_base_addr

abbrev pub rq_tail_offset_reg : ℕ
rq_tail_offset_reg = rq_head_offset_reg + sizeof_hwaddr

abbrev pub rq_base_addr : ℕ
rq_base_addr = rq_tail_offset_reg + sizeof_hwaddr

abbrev pub doorbell_reg : ℕ
doorbell_reg = rq_base_addr + (num_possible_virtines * sizeof_hwaddr)

abbrev pub is_processing_reg : ℕ
is_processing_reg = doorbell_reg + sizeof_unsigned_long

abbrev pub cq_head_offset_reg : ℕ
cq_head_offset_reg = is_processing_reg + sizeof_hwaddr

abbrev pub cq_tail_offset_reg : ℕ
cq_tail_offset_reg = cq_head_offset_reg + sizeof_hwaddr

abbrev pub cq_base_addr : ℕ
cq_base_addr = cq_tail_offset_reg + sizeof_hwaddr

abbrev pub batch_factor_reg : ℕ
batch_factor_reg = cq_base_addr + (num_possible_virtines * sizeof_hwaddr)

abbrev pub max_num_virtines_reg : ℕ
max_num_virtines_reg = batch_factor_reg + sizeof_unsigned_long

abbrev pub snapshot_size_reg : ℕ
snapshot_size_reg = max_num_virtines_reg + sizeof_unsigned_long

abbrev pub snapshot_addr_reg : ℕ
snapshot_addr_reg = snapshot_size_reg + sizeof_unsigned_long
