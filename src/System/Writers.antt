-- ===== src/System/Writers.antt =====
-- Two writers of virtines at once: fpga_char_write (fpga-char/chardev.c:241-277) makes its two
-- stores to the device under no lock.
use linux_pcie_dma.Common.{
  ℕ, ◌+◌, ◌*◌, ◌/◌, ◌^◌, ◌<◌, ◌≡◌, ◌≢◌, arith, u32, bit_or-shl32, shl32, bit_or, ◌∙◌,
}
use linux_pcie_dma.Registers.Driver
use linux_pcie_dma.Fifo
use linux_pcie_dma.Fifo.{Fifo}
use linux_pcie_dma.RingQueue.Insert.{insert_tail_refines}
use linux_pcie_dma.Device.{Holds}
use linux_pcie_dma.Device.Mmio.{virtine_fpga_mmio_write}
use linux_pcie_dma.System.{System, device_bus}

-- The two stores of a writer, of its lower and its upper half.
abbrev pub lower_stored : ℕ → System → System
lower_stored address s = device_bus.iowrite32 (u32 address) Driver.rq_tail_offset_reg s

abbrev pub upper_stored : ℕ → System → System
upper_stored address s = device_bus.iowrite32 (address / 2 ^ 32) (Driver.rq_tail_offset_reg + 4) s

-- If a second writer's lower half comes between the two stores of a first one, the device takes in
-- an address that is neither's, if they differ in both halves: the second's lower half under the
-- first's upper half.
pub writers_mixed :
    (s : System) (first second : ℕ) (dirty clean : Fifo)
    → Holds s.device.fpga dirty clean
    → first < 2 ^ 64
    → u32 first ≢ u32 second
    → first / 2 ^ 32 ≢ second / 2 ^ 32
    → 0 < first / 2 ^ 32
    → let mixed = first / 2 ^ 32 * 2 ^ 32 + u32 second in
      Holds
        (upper_stored first (lower_stored second (lower_stored first s))).device.fpga
        (Fifo.insert dirty mixed)
        clean
      × (mixed ≢ first)
      × (mixed ≢ second)
unfolding device_bus virtine_fpga_mmio_write
writers_mixed s first second dirty clean r small lows highs pos =
    let joined : bit_or (shl32 (u32 (first / 2 ^ 32))) (u32 (u32 second))
        ≡ first / 2 ^ 32 * 2 ^ 32 + u32 second =
      bit_or-shl32 (u32 (first / 2 ^ 32)) (u32 (u32 second)) (omega arith) (omega arith)
      ∙ omega arith in
    (
      rw joined (record {
        ready =
            (insert_tail_refines dirty (first / 2 ^ 32 * 2 ^ 32 + u32 second) r.ready
              (omega arith)).0;
        completed = r.completed;
      }),
      λ e. lows (omega arith),
      λ e. highs (omega arith),
    )
