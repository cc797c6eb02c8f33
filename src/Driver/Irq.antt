-- ===== src/Driver/Irq.antt =====
-- fetch_clean_virtines, the interrupt handler of fpga-char/fpga_char_main.c:205-237, over any bus.
pub mod Bounds
use linux_pcie_dma.Common.{
  ℕ, zero, suc, ◌+◌, Option, none, some, List, [], ◌∷◌, ◌==◌, if◌then◌else◌,
}
use linux_pcie_dma.Registers.{sizeof_unsigned_long}
use linux_pcie_dma.Registers.Driver.{cq_head_offset_reg}
use linux_pcie_dma.Driver.{Mmio}
use linux_pcie_dma.Driver.Chardev.{store_words, fpga_char_read_kernel}

module _ {S : Type 0} (bus : Mmio S) where
  -- The loop, with `clean_virtine` and `i` as they stand: the stores `clean_virtines[i] = v` in
  -- order, and the state. Each eight-byte read takes two rounds of its own loop and a test.
  unfoldable pub fetch_while : ℕ → S → (clean_virtine i : ℕ) → Option (List (ℕ × ℕ) × S)
  fetch_while zero s clean_virtine i = none
  fetch_while (suc fuel) s clean_virtine i =
      elim (fpga_char_read_kernel bus 3 s sizeof_unsigned_long cq_head_offset_reg) [
        | none ↦ none
        | some (bytes_read, words, s') ↦
            let fetched = store_words clean_virtine words in
            let rest = fetch_while fuel s' fetched (i + 1) in
            if bytes_read == 0
            then some ([], s')
            else if fetched == 0
            then some ([], s')
            else (elim rest [
              | none ↦ none
              | some (stores, final) ↦ some ((i, fetched) ∷ stores, final)
            ])
      ]

  unfoldable pub fetch_clean_virtines : ℕ → S → Option (List (ℕ × ℕ) × S)
  unfolding fetch_while
  fetch_clean_virtines fuel s = fetch_while fuel s 0 0
