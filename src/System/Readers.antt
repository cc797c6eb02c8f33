-- ===== src/System/Readers.antt =====
-- A reader of clean virtines that the interrupt handler interrupts: an eight-byte read at
-- CQ_HEAD_OFFSET_REG (fpga-char/chardev.c:196-206) makes two loads from the device under no lock.
use linux_pcie_dma.Common.{
  ℕ, ◌+◌, ◌*◌, ◌^◌, ◌<◌, ◌≤◌, ◌≡◌, ◌≢◌, some, [], ◌∷◌, All, length, arith, u32,
}
use linux_pcie_dma.Registers.Driver
use linux_pcie_dma.Fifo
use linux_pcie_dma.Fifo.{Fifo}
use linux_pcie_dma.RingQueue.Pop.{pop_head_refines}
use linux_pcie_dma.Device.{Holds}
use linux_pcie_dma.Device.Mmio.{virtine_fpga_mmio_read}
use linux_pcie_dma.Driver.Irq.{fetch_clean_virtines}
use linux_pcie_dma.Driver.Irq.Bounds.{numbered}
use linux_pcie_dma.System.{System, device_bus}
use linux_pcie_dma.System.Transfer.{fetch_while_lem}

-- The two loads of a reader: of the lower half, which takes the oldest clean virtine off the queue,
-- and of the upper half, which the device kept.
abbrev pub lower_loaded : System → ℕ × System
lower_loaded s = device_bus.ioread32 s Driver.cq_head_offset_reg

abbrev pub upper_loaded : System → ℕ × System
upper_loaded s = device_bus.ioread32 s (Driver.cq_head_offset_reg + 4)

lower_loaded_lem :
    (s : System) (first : ℕ) (dirty rest : Fifo)
    → Holds s.device.fpga dirty (first ∷ rest)
    → ((lower_loaded s).0 ≡ u32 first) × Holds (lower_loaded s).1.device.fpga dirty rest
unfolding device_bus virtine_fpga_mmio_read Fifo.pop
lower_loaded_lem s first dirty rest h =
    let (value, popped) = pop_head_refines (first ∷ rest) h.completed in
    (omega arith, record { ready = h.ready; completed = popped })

upper_loaded_lem :
    (s : System) (dirty clean : Fifo)
    → s.device.split_return ≡ 0
    → Holds s.device.fpga dirty clean
    → ((upper_loaded s).0 ≡ 0) × Holds (upper_loaded s).1.device.fpga dirty clean
unfolding device_bus virtine_fpga_mmio_read
upper_loaded_lem s dirty clean reset h =
    (omega arith, record { ready = h.ready; completed = h.completed })

-- If the interrupt handler runs between the two loads of a reader, it fetches the other clean
-- virtines and resets the half that the device kept: the reader gets the lower half of its virtine
-- alone. An address of 2 ^ 32 or more is lost to both.
pub readers_torn :
    (fuel : ℕ) (s : System) (first : ℕ) (dirty rest : Fifo)
    → length rest < fuel
    → Holds s.device.fpga dirty (first ∷ rest)
    → All (λ a. a < 2 ^ 64) rest
    → 2 ^ 32 ≤ first
    → let (lower, interrupted) = lower_loaded s in
      (after : System) × (fetch_clean_virtines device_bus fuel interrupted
        ≡ some (numbered 0 rest, after))
      × ((upper_loaded after).0 * 2 ^ 32 + lower ≡ u32 first)
      × (u32 first ≢ first)
      × Holds (upper_loaded after).1.device.fpga dirty []
unfolding fetch_clean_virtines
readers_torn fuel s first dirty rest f h small big =
    let (lower, left) = lower_loaded_lem s first dirty rest h in
    let (after, loop, done, kept, reset) =
      fetch_while_lem fuel (lower_loaded s).1 0 0 dirty rest f left small in
    let (upper, still) = upper_loaded_lem after dirty [] reset done in
    (after, loop, omega arith, (λ e. omega arith), still)
