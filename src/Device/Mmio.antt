-- ===== src/Device/Mmio.antt =====
-- The register file: virtine_fpga_mmio_read and virtine_fpga_mmio_write,
-- qemu-fpga-char/virtine_fpga.c:127-310. The width of an access is only printed there, so it is no
-- argument here; the printing itself is left out.
pub mod Access
use linux_pcie_dma.Common.{
  ℕ, ◌+◌, ◌-◌, ◌≡◌, Bool, true, false, List, [], ◌∷◌, ◌==◌, if◌then◌else◌, bit_or, u32, shl32,
  shr32,
}
use linux_pcie_dma.Registers.{
  num_possible_virtines, rq_head_offset_reg, rq_tail_offset_reg, rq_base_addr, doorbell_reg,
  is_processing_reg, cq_head_offset_reg, cq_tail_offset_reg, cq_base_addr, batch_factor_reg,
  max_num_virtines_reg, snapshot_size_reg, snapshot_addr_reg,
}
use linux_pcie_dma.RingQueue.{VirtineRingQueue, load, pop_head, insert_tail}
use linux_pcie_dma.Device.{VirtineFpgaDevice, DeviceState}
use linux_pcie_dma.Device.Effects.{Effect, cond_signal}

-- A bool read as an integer.
abbrev pub of_bool : Bool → ℕ
of_bool true = 1
of_bool false = 0

-- `~0ULL`, the value of a failed read.
abbrev pub failed_read : ℕ
failed_read = 0xffffffffffffffff

-- The pop at CQ_HEAD_OFFSET_REG, under the processing lock.
unfoldable pub pop_completed : DeviceState → ℕ × DeviceState
pop_completed s =
    let (popped, queue) = pop_head s.fpga.cq in
    (popped, record s { fpga = record s.fpga { cq = queue }; split_return = popped })

-- The value read, and the state after it.
unfoldable pub virtine_fpga_mmio_read : DeviceState → ℕ → ℕ × DeviceState
unfolding pop_completed
virtine_fpga_mmio_read s addr =
    if addr == rq_base_addr
    then (failed_read, s)
    else if addr == (rq_base_addr + 4)
    then (failed_read, s)
    else if addr == rq_head_offset_reg
    then (load fpga.rq fpga.rq.head_offset, s)
    else if addr == (rq_head_offset_reg + 4)
    then (shr32 (load fpga.rq fpga.rq.head_offset), s)
    else if addr == rq_tail_offset_reg
    then (failed_read, s)
    else if addr == (rq_tail_offset_reg + 4)
    then (failed_read, s)
    else if addr == cq_base_addr
    then (load fpga.cq fpga.cq.base_addr, s)
    else if addr == (cq_base_addr + 4)
    then (shr32 (load fpga.cq fpga.cq.base_addr), s)
    else if addr == cq_head_offset_reg
    then pop_completed s
    else if addr == (cq_head_offset_reg + 4)
    then (shr32 s.split_return, record s { split_return = 0 })
    else if addr == cq_tail_offset_reg
    then (load fpga.cq fpga.cq.tail_offset, s)
    else if addr == (cq_tail_offset_reg + 4)
    then (shr32 (load fpga.cq fpga.cq.tail_offset), s)
    else if addr == is_processing_reg
    then (of_bool fpga.is_card_processing, s)
    else if addr == batch_factor_reg
    then (fpga.batch_factor, s)
    else if addr == doorbell_reg
    then (of_bool fpga.doorbell, s)
    else if addr == max_num_virtines_reg
    then (num_possible_virtines, s)
    else if addr == snapshot_size_reg
    then (fpga.snapshot_size, s)
    else if addr == snapshot_addr_reg
    then (fpga.snapshot_addr, s)
    else if addr == (snapshot_addr_reg + 4)
    then (shr32 fpga.snapshot_addr, s)
    else (failed_read, s)
  where
    open s use {fpga}

-- The second half of a write to RQ_TAIL_OFFSET_REG: join the halves and insert the address.
unfoldable pub insert_ready : DeviceState → ℕ → DeviceState
insert_ready s val =
    let joined = bit_or (shl32 val) s.split_write in
    record s {
      fpga = record s.fpga { rq = (insert_tail s.fpga.rq joined).1 };
      split_write = joined;
    }

-- Both outcomes of the range test under `default:` only print, so they are one case here.
unfoldable pub virtine_fpga_mmio_write : DeviceState → ℕ → ℕ → DeviceState × List Effect
unfolding insert_ready
virtine_fpga_mmio_write s addr val =
    if addr == rq_base_addr
    then (s, [])
    else if addr == rq_head_offset_reg
    then (s, [])
    else if addr == rq_tail_offset_reg
    then (record s { split_write = val }, [])
    else if addr == (rq_tail_offset_reg + 4)
    then (insert_ready s val, [])
    else if addr == cq_base_addr
    then (s, [])
    else if addr == cq_head_offset_reg
    then (s, [])
    else if addr == cq_tail_offset_reg
    then (s, [])
    else if addr == is_processing_reg
    then (s, [])
    else if addr == batch_factor_reg
    then (record s { fpga = record fpga { batch_factor = u32 val } }, [])
    else if addr == doorbell_reg
    then (record s { fpga = record fpga { doorbell = true } }, cond_signal ∷ [])
    else if addr == max_num_virtines_reg
    then (s, [])
    else if addr == snapshot_size_reg
    then (record s { fpga = record fpga { snapshot_size = val } }, [])
    else if addr == snapshot_addr_reg
    then (record s { fpga = record fpga { snapshot_addr = val } }, [])
    else if addr == (snapshot_addr_reg + 4)
    then (
      record s { fpga = record fpga { snapshot_addr = bit_or (shl32 val) fpga.snapshot_addr } },
      [],
    )
    else (s, [])
  where
    open s use {fpga}
