-- ===== src/Device/Mmio/Access.antt =====
-- What the register file lets the guest do to the two queues and to the settings.
use linux_pcie_dma.Common.{
  ℕ, ◌+◌, ◌*◌, ◌^◌, ◌<◌, ◌≡◌, ◌≢◌, refl, true, [], ◌∷◌, ◌==◌, if◌then◌else◌, arith, bit_or, u32,
  shl32, bit_or-shl32, Bool-cases, inl, inr,
}
use linux_pcie_dma.Registers.{
  rq_tail_offset_reg, cq_head_offset_reg, doorbell_reg, batch_factor_reg, snapshot_size_reg,
  snapshot_addr_reg,
}
use linux_pcie_dma.Fifo
use linux_pcie_dma.Fifo.{Fifo}
use linux_pcie_dma.RingQueue.{insert_tail}
use linux_pcie_dma.RingQueue.Pop.{pop_head_refines}
use linux_pcie_dma.RingQueue.Insert.{insert_tail_refines}
use linux_pcie_dma.Device.{DeviceState, Holds}
use linux_pcie_dma.Device.Effects.{cond_signal}
use linux_pcie_dma.Device.Mmio.{virtine_fpga_mmio_read, virtine_fpga_mmio_write}

-- The address that a write to the upper half of RQ_TAIL_OFFSET_REG would insert.
abbrev pub joined_address : DeviceState → ℕ → ℕ
joined_address s val = bit_or (shl32 val) s.split_write

-- A write at any address leaves the completed queue alone, and changes the ready queue only at the
-- upper half of RQ_TAIL_OFFSET_REG, where it inserts the joined address.
pub write_queues :
    (s : DeviceState) (addr val : ℕ)
    → let after = (virtine_fpga_mmio_write s addr val).0.fpga in
      (after.cq ≡ s.fpga.cq)
      × (after.rq ≡ (
          if addr == (rq_tail_offset_reg + 4)
          then (insert_tail s.fpga.rq (joined_address s val)).1
          else s.fpga.rq))
unfolding virtine_fpga_mmio_write
write_queues s addr val = ground arith

-- So the queues go on standing for FIFOs whatever is written wherever, as long as no address 0 is
-- inserted.
pub write-Holds :
    (s : DeviceState) (addr val : ℕ) (dirty clean : Fifo)
    → Holds s.fpga dirty clean
    → (addr ≡ rq_tail_offset_reg + 4 → 0 < joined_address s val)
    → Holds
        (virtine_fpga_mmio_write s addr val).0.fpga
        (if addr == (rq_tail_offset_reg + 4)
          then Fifo.insert dirty (joined_address s val)
          else dirty)
        clean
write-Holds s addr val dirty clean r pos = elim (Bool-cases (addr == (rq_tail_offset_reg + 4))) [
  | inl here ↦
      let inserts : (virtine_fpga_mmio_write s addr val).0.fpga.rq
          ≡ (insert_tail s.fpga.rq (joined_address s val)).1 =
        ground (arith, write_queues s addr val) in
      rw here (record {
        ready =
            rw inserts
              (insert_tail_refines dirty (joined_address s val) r.ready (pos (ground arith))).0;
        completed = rw (write_queues s addr val).0 r.completed;
      })
  | inr there ↦
      let same : (virtine_fpga_mmio_write s addr val).0.fpga.rq ≡ s.fpga.rq =
        ground (arith, write_queues s addr val) in
      rw there
        (record { ready = rw same r.ready; completed = rw (write_queues s addr val).0 r.completed })
]

-- A read changes nothing but at CQ_HEAD_OFFSET_REG and the four bytes above it.
pub read_pure :
    (s : DeviceState) (addr : ℕ)
    → addr ≢ cq_head_offset_reg
    → addr ≢ cq_head_offset_reg + 4
    → (virtine_fpga_mmio_read s addr).1 ≡ s
unfolding virtine_fpga_mmio_read
read_pure s addr h k = ground arith

-- A write leaves every setting alone but the one whose register it addresses, and signals the
-- clean-up thread exactly at DOORBELL_REG, where it also rings the doorbell. No write can change
-- whether the card is processing, the counter of cleaned virtines, or the stopping flag.
pub write_settings :
    (s : DeviceState) (addr val : ℕ)
    → let (after, effects) = virtine_fpga_mmio_write s addr val in
      (after.fpga.batch_factor
        ≡ (if addr == batch_factor_reg then u32 val else s.fpga.batch_factor))
      × (after.fpga.snapshot_size
          ≡ (if addr == snapshot_size_reg then val else s.fpga.snapshot_size))
      × (after.fpga.snapshot_addr ≡ (
          if addr == snapshot_addr_reg
          then val
          else if addr == (snapshot_addr_reg + 4)
          then bit_or (shl32 val) s.fpga.snapshot_addr
          else s.fpga.snapshot_addr))
      × (after.fpga.doorbell ≡ (if addr == doorbell_reg then true else s.fpga.doorbell))
      × (effects ≡ (if addr == doorbell_reg then cond_signal ∷ [] else []))
      × (after.fpga.is_card_processing ≡ s.fpga.is_card_processing)
      × (after.fpga.num_virtines_cleaned_already ≡ s.fpga.num_virtines_cleaned_already)
      × (after.fpga.stopping ≡ s.fpga.stopping)
unfolding virtine_fpga_mmio_write
write_settings s addr val = (
  ground arith,
  ground arith,
  ground arith,
  ground arith,
  ground arith,
  ground arith,
  ground arith,
  ground arith,
)

-- Two 32-bit writes, the lower half first, hand one 64-bit address over to the ready queue: it is
-- inserted last if there is room, and dropped if there is none. Nothing else of the queues changes.
pub write_address_lem :
    (s : DeviceState) (lo hi : ℕ) (dirty clean : Fifo)
    → Holds s.fpga dirty clean
    → lo < 2 ^ 32
    → hi < 2 ^ 32
    → 0 < hi * 2 ^ 32 + lo
    → let half = (virtine_fpga_mmio_write s rq_tail_offset_reg lo).0 in
      Holds
        (virtine_fpga_mmio_write half (rq_tail_offset_reg + 4) hi).0.fpga
        (Fifo.insert dirty (hi * 2 ^ 32 + lo))
        clean
unfolding virtine_fpga_mmio_write
write_address_lem s lo hi dirty clean r p q pos = rw (bit_or-shl32 hi lo q p) (record {
  ready = (insert_tail_refines dirty (hi * 2 ^ 32 + lo) r.ready pos).0;
  completed = r.completed;
})

-- Reading CQ_HEAD_OFFSET_REG and then the four bytes above it, each 32 bits wide, gives the two
-- halves of the oldest clean virtine's address, and takes it off the queue. Of an empty queue both
-- halves are 0.
pub read_address_lem :
    (s : DeviceState) (dirty clean : Fifo)
    → Holds s.fpga dirty clean
    → let (first, half) = virtine_fpga_mmio_read s cq_head_offset_reg in
      let (second, after) = virtine_fpga_mmio_read half (cq_head_offset_reg + 4) in
      (second * 2 ^ 32 + u32 first ≡ (Fifo.pop clean).0)
      × Holds after.fpga dirty (Fifo.pop clean).1
      × (after.split_return ≡ 0)
      × (after.split_write ≡ s.split_write)
unfolding virtine_fpga_mmio_read
read_address_lem s dirty clean r =
    let (value, rest) = pop_head_refines clean r.completed in
    (omega arith, record { ready = r.ready; completed = rest }, refl, refl)
