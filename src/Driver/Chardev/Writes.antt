-- ===== src/Driver/Chardev/Writes.antt =====
-- What fpga_char_write, fpga-char/chardev.c:241-277, does to the device for any length and offset.
use linux_pcie_dma.Common.{
  ℕ, zero, suc, ◌+◌, ◌*◌, ◌/◌, ◌%◌, ◌≤◌, ◌<◌, ◌≡◌, refl, ap, ◌∙◌, ◌↔◌, ◌⊎◌, ◌==◌, if◌then◌else◌,
  some, List, [], ◌∷◌, arith, All,
}
use mathlib.Core.List.{map}
use native.Mathlib.Decide.{ℕ_discrete}
use linux_pcie_dma.Driver.{Mmio}
use linux_pcie_dma.Driver.Chardev.{write_while, fpga_char_write}
use linux_pcie_dma.Driver.Chardev.Transfer.{word_offsets, words_within}

-- The words of a transfer with the offsets that they go to, `n` of them from `bytes_written` on.
abbrev pub words_from : (ℕ → ℕ × ℕ) → (buffer offset : ℕ) → (n bytes_written : ℕ) → List (ℕ × ℕ)
words_from copy_from_user buffer offset zero bytes_written = []
words_from copy_from_user buffer offset (suc n) bytes_written =
    (offset + bytes_written, (copy_from_user (buffer + bytes_written)).1)
    ∷ words_from copy_from_user buffer offset n (bytes_written + 4)

offsets-words_from :
    (copy_from_user : ℕ → ℕ × ℕ) (buffer offset n bytes_written : ℕ)
    → map (λ w. w.0) (words_from copy_from_user buffer offset n bytes_written)
      ≡ word_offsets n (offset + bytes_written)
offsets-words_from copy_from_user buffer offset zero bytes_written = refl
offsets-words_from copy_from_user buffer offset (suc n) bytes_written =
    ap (λ r. (offset + bytes_written) ∷ r)
      (offsets-words_from copy_from_user buffer offset n (bytes_written + 4)
        ∙ ap (word_offsets n) (omega arith))

module _ {S : Type 0} (bus : Mmio S) where
  -- The accesses, in order.
  abbrev pub iowrites : List (ℕ × ℕ) → S → S
  iowrites [] s = s
  iowrites (w ∷ ws) s = iowrites ws (bus.iowrite32 w.1 w.0 s)

  module _ (copy_from_user : ℕ → ℕ × ℕ) where
    write_while_lem :
        (n fuel : ℕ) (s : S) (buffer offset length bytes_written : ℕ)
        → n < fuel
        → length ≤ bytes_written + 4 * n
        → bytes_written + 4 * n < length + 4
        → write_while bus copy_from_user fuel s buffer offset length bytes_written
          ≡ some (
            bytes_written + 4 * n,
            iowrites (words_from copy_from_user buffer offset n bytes_written) s,
          )
    unfolding write_while
    write_while_lem n zero s buffer offset length bytes_written f lo hi = absurd (omega arith)
    write_while_lem zero (suc fuel) s buffer offset length bytes_written f lo hi = ground arith
    write_while_lem (suc n) (suc fuel) s buffer offset length bytes_written f lo hi =
        let word = (copy_from_user (buffer + bytes_written)).1 in
        let rest =
          write_while_lem n fuel (bus.iowrite32 word (offset + bytes_written) s) buffer offset
            length (bytes_written + 4) (omega arith) (omega arith) (omega arith) in
        ground arith

    write_result :
        (fuel : ℕ) (s : S) (buffer length offset : ℕ)
        → (length + 3) / 4 < fuel
        → let n = if (offset % 4) == 0 then (length + 3) / 4 else 0 in
          fpga_char_write bus copy_from_user fuel s buffer length offset
          ≡ some (4 * n, iowrites (words_from copy_from_user buffer offset n 0) s)
    unfolding fpga_char_write
    write_result fuel s buffer length offset enough = elim (ℕ_discrete (offset % 4) 0) [
      | no odd ↦ ground arith
      | yes aligned ↦
          let done =
            write_while_lem ((length + 3) / 4) fuel s buffer offset length 0 enough (omega arith)
              (omega arith) in
          ground arith
    ]

    -- A write ends, given a unit of fuel for each word and one more. At an offset that is not a
    -- multiple of four it writes nothing and returns 0. Else it makes one access of four bytes for
    -- each word of the length, rounded up, in order and at consecutive offsets, whether or not the
    -- copies from the user succeed, and returns the rounded length. Nothing checks the offset
    -- against the registers: the accesses stay below `size` exactly if there are none or the
    -- rounded length fits there.
    pub fpga_char_write_lem :
        (fuel : ℕ) (s : S) (buffer length offset size : ℕ)
        → (length + 3) / 4 < fuel
        → let n = if (offset % 4) == 0 then (length + 3) / 4 else 0 in
          let accesses = words_from copy_from_user buffer offset n 0 in
          (fpga_char_write bus copy_from_user fuel s buffer length offset
            ≡ some (4 * n, iowrites accesses s))
          × (map (λ w. w.0) accesses ≡ word_offsets n offset)
          × (All (λ w. w.0 + 4 ≤ size) accesses ↔ ((n ≡ 0) ⊎ (offset + 4 * n ≤ size)))
    unfolding fpga_char_write
    fpga_char_write_lem fuel s buffer length offset size enough =
        let n = if (offset % 4) == 0 then (length + 3) / 4 else 0 in
        let accesses = words_from copy_from_user buffer offset n 0 in
        let places =
          offsets-words_from copy_from_user buffer offset n 0 ∙ ap (word_offsets n) (omega arith) in
        (
          write_result fuel s buffer length offset enough,
          places,
          words_within size n offset accesses places,
        )
