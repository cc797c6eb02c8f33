-- ===== src/System/Bulk.antt =====
-- Writes of any length at RQ_TAIL_OFFSET_REG: fpga_char_write (fpga-char/chardev.c:241-277) makes
-- each further store at the next offset, which is no longer that register.
use linux_pcie_dma.Common.{
  ℕ, zero, suc, ◌+◌, ◌*◌, ◌-◌, ◌/◌, ◌<◌, ◌≤◌, ◌≡◌, refl, ap, ◌∙◌, some, List, [], ◌++◌, arith, u32,
}
use mathlib.Core.List.{append-nil}
use linux_pcie_dma.Registers.Driver
use linux_pcie_dma.Fifo
use linux_pcie_dma.Fifo.{Fifo}
use linux_pcie_dma.Device.{DeviceState, Holds}
use linux_pcie_dma.Device.Effects.{Effect}
use linux_pcie_dma.Device.Mmio.{virtine_fpga_mmio_write}
use linux_pcie_dma.Driver.Chardev.{fpga_char_write}
use linux_pcie_dma.Driver.Chardev.Writes.{words_from, iowrites, fpga_char_write_lem}
use linux_pcie_dma.System.{System, device_bus}
use linux_pcie_dma.System.Snapshot.{Holds64}
use linux_pcie_dma.System.Transfer.{IsKept, give_virtine_lem}

-- A store between RQ_BASE_ADDR and DOORBELL_REG changes nothing.
quiet_store :
    (word at : ℕ) (s : System)
    → Driver.rq_base_addr ≤ at
    → at < Driver.doorbell_reg
    → device_bus.iowrite32 word at s ≡ s
unfolding device_bus virtine_fpga_mmio_write
quiet_store word at s lo hi =
    let ignored : virtine_fpga_mmio_write s.device at (u32 word) ≡ (s.device, []) = ground arith in
    ap (λ (r : DeviceState × List Effect). record { device = r.0; asked = s.asked ++ r.1 }) ignored
    ∙ ap (λ (es : List Effect). record s { asked = es }) (append-nil s.asked)

quiet_stores :
    (copy_from_user : ℕ → ℕ × ℕ) (buffer n bytes_written : ℕ) (s : System)
    → 8 ≤ bytes_written
    → Driver.rq_tail_offset_reg + bytes_written + 4 * n ≤ Driver.doorbell_reg
    → iowrites device_bus
        (words_from copy_from_user buffer Driver.rq_tail_offset_reg n bytes_written)
        s
      ≡ s
quiet_stores copy_from_user buffer zero bytes_written s lo hi = refl
quiet_stores copy_from_user buffer (suc n) bytes_written s lo hi =
    let one =
      quiet_store (copy_from_user (buffer + bytes_written)).1
        (Driver.rq_tail_offset_reg + bytes_written) s (omega arith) (omega arith) in
    ap
      (iowrites device_bus
        (words_from copy_from_user buffer Driver.rq_tail_offset_reg n (bytes_written + 4)))
      one
    ∙ quiet_stores copy_from_user buffer n (bytes_written + 4) s (omega arith) (omega arith)

-- Whatever length from eight bytes up to the whole ready queue a program writes at
-- RQ_TAIL_OFFSET_REG, and however many addresses it means to hand over: the write ends, reports the
-- length rounded up to a multiple of four, and puts the first address last in the ready queue, if
-- there is room. The rest of the addresses goes nowhere, and nothing else of the device changes.
pub give_first_virtine :
    (copy_from_user : ℕ → ℕ × ℕ) (fuel : ℕ) (s : System) (buffer address length : ℕ)
    (dirty clean : Fifo)
    → Holds s.device.fpga dirty clean
    → Holds64 copy_from_user buffer address
    → 0 < address
    → 8 ≤ length
    → length ≤ 8 + 8 * Driver.num_possible_virtines
    → (length + 3) / 4 < fuel
    → (after : System) × (fpga_char_write device_bus copy_from_user fuel s buffer length
          Driver.rq_tail_offset_reg
        ≡ some (4 * ((length + 3) / 4), after))
      × Holds after.device.fpga (Fifo.insert dirty address) clean
      × IsKept s after
give_first_virtine copy fuel s buffer address length dirty clean r h pos lo hi enough =
    let (after, wrote, holds, kept) = give_virtine_lem copy s buffer address dirty clean r h pos in
    let k = (length + 3) / 4 - 2 in
    let more : (length + 3) / 4 ≡ suc (suc k) = omega arith in
    let bus = device_bus in
    let place = Driver.rq_tail_offset_reg in
    let all = (fpga_char_write_lem bus copy fuel s buffer length place 0 enough).0 in
    let two = (fpga_char_write_lem bus copy 3 s buffer 8 place 0 (omega arith)).0 in
    let second : iowrites bus (words_from copy buffer place 2 0) s ≡ after = cc in
    let rest : iowrites bus (words_from copy buffer place (suc (suc k)) 0) s ≡ after =
      quiet_stores copy buffer k 8 (iowrites bus (words_from copy buffer place 2 0) s) (omega arith)
        (omega arith)
      ∙ second in
    let final : iowrites bus (words_from copy buffer place ((length + 3) / 4) 0) s ≡ after =
      ap (λ n. iowrites bus (words_from copy buffer place n 0) s) more ∙ rest in
    (after, all ∙ ap (λ (t : System). some (4 * ((length + 3) / 4), t)) final, holds, kept)
