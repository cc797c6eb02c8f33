-- ===== src/SampleChar/Message.antt =====
-- What one write, and one open, of sample-char/sample_char.c leave in the message.
use linux_pcie_dma.Common.{
  ℕ, ◌+◌, ◌-◌, ◌^◌, ◌≤◌, ◌<◌, ◌≡◌, ◌≢◌, ap, zero, suc, Bool-cases, set, ◌==◌, ==_iff, ◌↔◌, ◌∙◌,
  get_or, get_or-set_self, get_or-set_ne, length-set, ◌⊎◌, inl, inr, refl, List, [], ◌∷◌, arith,
  take, length, sym,
}
use mathlib.Core.Path.{subst}
use linux_pcie_dma.SampleChar.{
  copy_while, working_string, SampleChar, buf_len, sample_char_open, sample_char_write, overwrite,
}

take-overwrite :
    (xs bytes : List ℕ)
    → length bytes ≤ length xs
    → take (length bytes) (overwrite xs bytes) ≡ bytes
take-overwrite [] [] h = refl
take-overwrite [] (b ∷ bytes) h = absurd (omega arith)
take-overwrite (x ∷ xs) [] h = refl
take-overwrite (x ∷ xs) (b ∷ bytes) h = ap (λ r. b ∷ r) (take-overwrite xs bytes (omega arith))

module _ (msg_at : ℕ) {M : Type 0} (copy_from_user : M → (from count : ℕ) → ℕ × List ℕ)
    (s : SampleChar) (memory : M) (buffer count : ℕ) (bytes : List ℕ)
    (high : msg_at + 128 < 2 ^ 64) where
  write_stored :
      s.msg_last_char ≢ msg_at + 99
      → 0 < count
      → count ≤ buf_len
      → copy_from_user memory buffer count ≡ (0, bytes)
      → sample_char_write msg_at copy_from_user (s, memory) buffer count ≡ (
        0,
        (record s { msg = overwrite s.msg bytes; msg_last_char = msg_at + (count - 1) }, memory),
      )
  unfolding sample_char_write
  write_stored free some_bytes fits copied = rw copied (ground arith)

  write_full :
      s.msg_last_char ≡ msg_at + 99
      → sample_char_write msg_at copy_from_user (s, memory) buffer count ≡ (0, (s, memory))
  unfolding sample_char_write
  write_full e = ground arith

-- A write of `count` bytes, at least one and at most 100, that finds `msg_last_char` before the
-- last element and copies them all answers 0, puts them at the start of the message, and fills the
-- queue exactly if it wrote 100 bytes. Then every write that follows answers 0 and changes nothing.
pub sample_char_write_lem :
    (msg_at : ℕ) {M : Type 0} (copy_from_user : M → (from count : ℕ) → ℕ × List ℕ) (s : SampleChar)
    (memory : M) (buffer count : ℕ) (bytes : List ℕ)
    → msg_at + 128 < 2 ^ 64
    → length s.msg ≡ buf_len
    → s.msg_last_char ≢ msg_at + 99
    → 0 < count
    → count ≤ buf_len
    → copy_from_user memory buffer count ≡ (0, bytes)
    → length bytes ≡ count
    → let written = sample_char_write msg_at copy_from_user (s, memory) buffer count in
      (written.0 ≡ 0)
      × (take count written.1.0.msg ≡ bytes)
      × ((written.1.0.msg_last_char ≡ msg_at + 99) ↔ (count ≡ buf_len))
      × (count ≡ buf_len
          → (next next_count : ℕ)
          → sample_char_write msg_at copy_from_user written.1 next next_count ≡ (0, written.1))
sample_char_write_lem msg_at copy_from_user s memory buffer count bytes high full free some_bytes
      fits copied all_bytes =
    let stored = record s { msg = overwrite s.msg bytes; msg_last_char = msg_at + (count - 1) } in
    let fields : take count stored.msg ≡ bytes =
      subst (λ n. take n stored.msg ≡ bytes) all_bytes (take-overwrite s.msg bytes (omega arith)) in
    subst
      (λ written.
        (written.0 ≡ 0)
        × (take count written.1.0.msg ≡ bytes)
        × ((written.1.0.msg_last_char ≡ msg_at + 99) ↔ (count ≡ buf_len))
        × (count ≡ buf_len
            → (next next_count : ℕ)
            → sample_char_write msg_at copy_from_user written.1 next next_count ≡ (0, written.1)))
      (sym (
        write_stored msg_at copy_from_user s memory buffer count bytes high free some_bytes fits
          copied))
      (
        refl,
        fields,
        ground arith,
        λ e next next_count.
            write_full msg_at copy_from_user stored memory next next_count [] high (omega arith),
      )

copy_while_outside :
    (rounds i j : ℕ) (msg : List ℕ)
    → (j < i) ⊎ (i + rounds ≤ j)
    → get_or (copy_while rounds msg i) j 0 ≡ get_or msg j 0
unfolding copy_while
copy_while_outside zero i j msg h = refl
copy_while_outside (suc rounds) i j msg h =
    copy_while_outside rounds (i + 1) j (set msg i (get_or working_string i 0)) (ground arith)
    ∙ get_or-set_ne msg i j (get_or working_string i 0) 0 (ground arith)

copy_while_inside :
    (rounds i j : ℕ) (msg : List ℕ)
    → i ≤ j
    → j < i + rounds
    → j < length msg
    → get_or (copy_while rounds msg i) j 0 ≡ get_or working_string j 0
unfolding copy_while
copy_while_inside zero i j msg l h b = absurd (omega arith)
copy_while_inside (suc rounds) i j msg l h b =
    let msg' = set msg i (get_or working_string i 0) in
    elim (Bool-cases (i == j)) [
      | inl e ↦
          subst (λ k. get_or (copy_while rounds msg' (i + 1)) k 0 ≡ get_or working_string k 0)
            ((==_iff i j).0 e)
            (copy_while_outside rounds (i + 1) i msg' (inl (omega arith))
              ∙ get_or-set_self msg i (get_or working_string i 0) 0 (omega arith))
      | inr ne ↦
          copy_while_inside rounds (i + 1) j msg' (ground arith) (omega arith)
            (omega (arith, length-set msg i (get_or working_string i 0)))
    ]

-- Opening writes the twelve bytes of the greeting over the start of the message, whatever was
-- there, leaves every other byte, and points to the last letter.
pub sample_char_open_lem :
    (msg_at : ℕ) (s : SampleChar) (j : ℕ)
    → msg_at + 128 < 2 ^ 64
    → length s.msg ≡ buf_len
    → let opened = (sample_char_open msg_at s).1 in
      (j < 12 → get_or opened.msg j 0 ≡ get_or working_string j 0)
      × (12 ≤ j → get_or opened.msg j 0 ≡ get_or s.msg j 0)
      × (opened.msg_last_char ≡ msg_at + 10)
unfolding sample_char_open
sample_char_open_lem msg_at s j high full = (
  λ h. copy_while_inside 12 0 j s.msg (omega arith) (omega arith) (omega arith),
  λ h. copy_while_outside 12 0 j s.msg (inr (omega arith)),
  omega arith,
)
