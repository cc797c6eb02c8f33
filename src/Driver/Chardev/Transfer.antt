-- ===== src/Driver/Chardev/Transfer.antt =====
-- How many bytes the two transfer loops move, and where they put them: fpga-char/chardev.c:176-277.
use linux_pcie_dma.Common.{
  ℕ, zero, suc, ◌+◌, ◌*◌, ◌/◌, ◌%◌, ◌≤◌, ◌<◌, ◌≡◌, ◌≢◌, refl, ap, sym, ◌∙◌, ◌↔◌, ◌⊎◌, not, ◌||◌,
  ◌&&◌, ◌==◌, if◌then◌else◌, is_some, Option, none, some, List, [], ◌∷◌, arith, All, length, Bool,
  inl, inr,
}
use mathlib.Core.List.{map}
use mathlib.Core.Path.{subst}
use native.Mathlib.Decide.{ℕ_discrete}
use linux_pcie_dma.Driver.{Mmio, Reply, returns, fails, eio, efault}
use linux_pcie_dma.Driver.Chardev.{
  read_while, fpga_char_read_kernel, fpga_char_read, fpga_char_write, store_words,
}

-- `n` offsets, four bytes apart, from `start` on.
abbrev pub word_offsets : ℕ → ℕ → List ℕ
word_offsets zero start = []
word_offsets (suc n) start = start ∷ word_offsets n (start + 4)

All-word_offsets :
    (size n start : ℕ)
    → All (λ w. w + 4 ≤ size) (word_offsets n start)
    → (n ≡ 0) ⊎ (start + 4 * n ≤ size)
All-word_offsets size zero start h = inl refl
All-word_offsets size (suc zero) start h = inr (omega arith)
All-word_offsets size (suc (suc n)) start h =
    let rest = All-word_offsets size (suc n) (start + 4) h.1 in inr (omega arith)

word_offsets-All :
    (size n start : ℕ) → start + 4 * n ≤ size → All (λ w. w + 4 ≤ size) (word_offsets n start)
word_offsets-All size zero start h = tt
word_offsets-All size (suc n) start h =
    (omega arith, word_offsets-All size n (start + 4) (omega arith))

All-map : (P : ℕ → Type 0) (ws : List (ℕ × ℕ)) → All P (map (λ w. w.0) ws) ↔ All (λ w. P w.0) ws
All-map P [] = ((λ h. h), λ h. h)
All-map P (w ∷ ws) = ((λ h. (h.0, (All-map P ws).0 h.1)), λ h. (h.0, (All-map P ws).1 h.1))

-- Words at consecutive offsets stay below a size exactly if there are none or the last does.
pub words_within :
    (size n start : ℕ) (ws : List (ℕ × ℕ))
    → map (λ w. w.0) ws ≡ word_offsets n start
    → All (λ w. w.0 + 4 ≤ size) ws ↔ ((n ≡ 0) ⊎ (start + 4 * n ≤ size))
words_within size n start ws places = (
  λ h.
      All-word_offsets size n start
        (subst (All (λ w. w + 4 ≤ size)) places ((All-map (λ a. a + 4 ≤ size) ws).1 h)),
  λ bound. (All-map (λ a. a + 4 ≤ size) ws).0 (
      subst (All (λ w. w + 4 ≤ size)) (sym places) (elim bound [
        | inl z ↦ subst (λ k. All (λ w. w + 4 ≤ size) (word_offsets k start)) (sym z) tt
        | inr b ↦ word_offsets-All size n start b
      ])),
)

module _ {S : Type 0} (bus : Mmio S) where
  read_while_stop :
      (fuel : ℕ) (s : S) (offset length bytes_read : ℕ)
      → length ≤ bytes_read
      → read_while bus (suc fuel) s offset length bytes_read ≡ some (bytes_read, [], s)
  unfolding read_while
  read_while_stop fuel s offset length bytes_read h = ground arith

  read_while_round :
      (fuel : ℕ) (s : S) (offset length bytes_read total : ℕ) (words : List (ℕ × ℕ)) (final : S)
      → bytes_read < length
      → read_while bus fuel (bus.ioread32 s (offset + bytes_read)).1 offset length (bytes_read + 4)
        ≡ some (total, words, final)
      → read_while bus (suc fuel) s offset length bytes_read
        ≡ some (total, (bytes_read, (bus.ioread32 s (offset + bytes_read)).0) ∷ words, final)
  unfolding read_while
  read_while_round fuel s offset length bytes_read total words final h e = ground arith

  read_while_lem :
      (n fuel : ℕ) (s : S) (offset length bytes_read : ℕ)
      → n < fuel
      → length ≤ bytes_read + 4 * n
      → bytes_read + 4 * n < length + 4
      → (words : List (ℕ × ℕ)) × (final : S) × (read_while bus fuel s offset length bytes_read
          ≡ some (bytes_read + 4 * n, words, final))
        × (map (λ w. w.0) words ≡ word_offsets n bytes_read)
  read_while_lem n zero s offset length bytes_read f lo hi = absurd (omega arith)
  read_while_lem zero (suc fuel) s offset length bytes_read f lo hi = (
    [],
    s,
    read_while_stop fuel s offset length bytes_read (omega arith)
        ∙ ap (λ (t : ℕ). some (t, [], s)) (omega arith),
    refl,
  )
  read_while_lem (suc n) (suc fuel) s offset length bytes_read f lo hi =
      let (word, s') = bus.ioread32 s (offset + bytes_read) in
      let (words, final, done, places) =
        read_while_lem n fuel s' offset length (bytes_read + 4) (omega arith) (omega arith)
          (omega arith) in
      (
        (bytes_read, word) ∷ words,
        final,
        read_while_round fuel s offset length bytes_read _ words final (omega arith)
            (done ∙ ap (λ (t : ℕ). some (t, words, final)) (omega arith)),
        ap (λ r. bytes_read ∷ r) places,
      )

  -- An aligned read ends, given a unit of fuel for each word and one more. It stores whole words at
  -- the offsets 0, 4, 8, ... and counts the requested length rounded up to a multiple of four.
  -- Nothing checks the length against the buffer: the stores stay inside one of `size` bytes exactly
  -- if that count fits it.
  pub fpga_char_read_kernel_lem :
      (fuel : ℕ) (s : S) (length offset size : ℕ)
      → offset % 4 ≡ 0
      → (length + 3) / 4 < fuel
      → (words : List (ℕ × ℕ)) × (final : S) × (fpga_char_read_kernel bus fuel s length offset
          ≡ some (4 * ((length + 3) / 4), words, final))
        × (map (λ w. w.0) words ≡ word_offsets ((length + 3) / 4) 0)
        × (All (λ w. w.0 + 4 ≤ size) words ↔ (4 * ((length + 3) / 4) ≤ size))
  unfolding fpga_char_read_kernel
  fpga_char_read_kernel_lem fuel s length offset size aligned enough =
      let (words, final, done, places) =
        read_while_lem ((length + 3) / 4) fuel s offset length 0 enough (omega arith)
          (omega arith) in
      let bound = words_within size ((length + 3) / 4) 0 words places in
      (
        words,
        final,
        rw aligned (done ∙ ap (λ (t : ℕ). some (t, words, final)) (omega arith)),
        places,
        ((λ h. ground (arith, bound.0 h)), λ h. bound.1 (inr (omega arith))),
      )

  -- The same of any result.
  fpga_char_read_kernel_within :
      (fuel : ℕ) (s : S) (length offset size : ℕ) (words : List (ℕ × ℕ)) (count : ℕ) (final : S)
      → offset % 4 ≡ 0
      → (length + 3) / 4 < fuel
      → fpga_char_read_kernel bus fuel s length offset ≡ some (count, words, final)
      → All (λ w. w.0 + 4 ≤ size) words ↔ (4 * ((length + 3) / 4) ≤ size)
  fpga_char_read_kernel_within fuel s length offset size words count final aligned enough e =
      let (words', final', done, places, within) =
        fpga_char_read_kernel_lem fuel s length offset size aligned enough in
      let same : words' ≡ words = cc in
      subst (λ ws. All (λ w. w.0 + 4 ≤ size) ws ↔ (4 * ((length + 3) / 4) ≤ size)) same within

  misaligned_read :
      (fuel uninitialised : ℕ) (copy_failed : Bool) (s : S) (length offset : ℕ)
      → offset % 4 ≢ 0
      → fpga_char_read bus fuel uninitialised copy_failed s length offset
        ≡ some (fails eio, none, s)
  unfolding fpga_char_read fpga_char_read_kernel
  misaligned_read fuel uninitialised copy_failed s length offset odd = ground arith

  aligned_read :
      (fuel uninitialised : ℕ) (copy_failed : Bool) (s : S) (length offset : ℕ)
      (words : List (ℕ × ℕ)) (final : S)
      → fpga_char_read_kernel bus fuel s length offset ≡ some (4 * ((length + 3) / 4), words, final)
      → fpga_char_read bus fuel uninitialised copy_failed s length offset
        ≡ some (
            if length == 0
            then (fails eio, none, final)
            else if copy_failed
            then (fails efault, none, final)
            else (returns (4 * ((length + 3) / 4)), some (store_words uninitialised words), final))
  unfolding fpga_char_read
  aligned_read fuel uninitialised copy_failed s length offset words final e = ground arith

  -- What a user's read returns. At an offset that is not a multiple of four, and for no bytes at
  -- all, it is EIO; otherwise EFAULT if the copy to the user fails, and else the requested length
  -- rounded up to a multiple of four. The user's buffer is given a value in that last case only.
  pub fpga_char_read_reply :
      (fuel uninitialised : ℕ) (copy_failed : Bool) (s : S) (length offset : ℕ)
      → (length + 3) / 4 < fuel
      → (reply : Reply) × (user : Option ℕ) × (final : S) × (fpga_char_read bus fuel uninitialised
            copy_failed s length offset
          ≡ some (reply, user, final))
        × (reply ≡ (
            if not ((offset % 4) == 0) || (length == 0)
            then fails eio
            else if copy_failed
            then fails efault
            else returns (4 * ((length + 3) / 4))))
        × (is_some user ≡ (((offset % 4) == 0) && (not (length == 0) && not copy_failed)))
  fpga_char_read_reply fuel uninitialised copy_failed s length offset enough =
      elim (ℕ_discrete (offset % 4) 0) [
        | no odd ↦ (
          fails eio,
          none,
          s,
          misaligned_read fuel uninitialised copy_failed s length offset odd,
          ground arith,
          ground arith,
        )
        | yes aligned ↦
            let (words, final, done, places, within) =
              fpga_char_read_kernel_lem fuel s length offset length aligned enough in
            let outcome : Reply × Option ℕ × S =
              if length == 0
              then (fails eio, none, final)
              else if copy_failed
              then (fails efault, none, final)
              else (
                returns (4 * ((length + 3) / 4)),
                some (store_words uninitialised words),
                final,
              ) in
            (
              outcome.0,
              outcome.1,
              outcome.2,
              aligned_read fuel uninitialised copy_failed s length offset words final done,
              ground arith,
              ground arith,
            )
      ]

  module _ (copy_from_user : ℕ → ℕ × ℕ) where
    -- An aligned write of eight bytes makes two accesses of four bytes, the lower half first, and
    -- ignores whether the copy from the user succeeded.
    pub fpga_char_write_eight :
        (s : S) (buffer offset : ℕ)
        → offset % 4 ≡ 0
        → fpga_char_write bus copy_from_user 3 s buffer 8 offset
          ≡ some (
            8,
            bus.iowrite32
                (copy_from_user (buffer + 4)).1
                (offset + 4)
                (bus.iowrite32 (copy_from_user (buffer + 0)).1 (offset + 0) s),
          )
    unfolding fpga_char_write
    fpga_char_write_eight s buffer offset aligned = ground arith
