-- ===== src/Tests/Files.antt =====
-- Device files over attachments of the device, and long writes: the theorems on them at concrete
-- inputs.
use linux_pcie_dma.Common.{
  ℕ, ◌+◌, ◌*◌, ◌%◌, ◌^◌, ◌≤◌, ◌≡◌, ◌↔◌, ◌⊎◌, refl, true, some, none, List, [], ◌∷◌, All, arith,
  get_or, set,
}
use mathlib.Core.List.{map}
use linux_pcie_dma.Driver.{Mmio}
use linux_pcie_dma.Driver.Chardev.{fpga_char_write}
use linux_pcie_dma.Driver.Chardev.Transfer.{word_offsets}
use linux_pcie_dma.Driver.Chardev.Writes.{words_from, iowrites, fpga_char_write_lem}
use linux_pcie_dma.Driver.Chardev.Lifetime.{
  Life, probes, removes, opens, closes, opened, lives, freed_device, reached, loaded,
}
use linux_pcie_dma.Driver.Chardev.Lifetime.OpenFiles.{file_outlives_device}

-- File 3 was opened and closed, then the device is there with no file open.
abbrev before : Life
before = elim (lives (probes ∷ opens true 3 0 ∷ closes 3 ∷ []) loaded) [
  | some s ↦ s
  | none ↦ loaded
]

-- File 4 is opened, the device is unplugged and plugged in again.
abbrev replugged : Life
replugged = elim (lives (removes ∷ probes ∷ []) (opened true 4 0 before)) [
  | some s ↦ s
  | none ↦ loaded
]

file_outlives_device_example : reached replugged 4 ≡ freed_device 1
unfolding lives
file_outlives_device_example =
    file_outlives_device (probes ∷ opens true 3 0 ∷ closes 3 ∷ []) (removes ∷ probes ∷ []) 4 0
      before replugged refl refl refl refl

-- As it is then unplugged.
abbrev unplugged : Life
unplugged = elim (lives (removes ∷ []) (opened true 4 0 before)) [ some s ↦ s | none ↦ loaded ]

-- A memory of words, each of which is kept at its offset.
abbrev word_memory : Mmio (List ℕ)
word_memory = record {
  ioread32 = λ memory at. (get_or memory at 0, memory);
  iowrite32 = λ word at memory. set memory at word;
}

-- User memory that holds at each address its number.
abbrev copy_from_user : ℕ → ℕ × ℕ
copy_from_user address = (0, address % 2 ^ 32)

-- Nine bytes are three words, which do not fit below eight.
fpga_char_write_example :
    let accesses = words_from copy_from_user 1000 0 3 0 in
    (fpga_char_write word_memory copy_from_user 4 (7 ∷ []) 1000 9 0
      ≡ some (12, iowrites word_memory accesses (7 ∷ [])))
    × (map (λ w. w.0) accesses ≡ word_offsets 3 0)
    × (All (λ w. w.0 + 4 ≤ 8) accesses ↔ ((◌≡◌ {A = ℕ} 3 0) ⊎ (0 + 4 * 3 ≤ 8)))
fpga_char_write_example =
    fpga_char_write_lem word_memory copy_from_user 4 (7 ∷ []) 1000 9 0 8 (omega arith)
