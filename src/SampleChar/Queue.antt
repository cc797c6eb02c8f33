-- ===== src/SampleChar/Queue.antt =====
-- What a read of sample-char/sample_char.c finds after any sequence of the file operations.
use linux_pcie_dma.Common.{
  ℕ, ◌+◌, ◌^◌, ◌≤◌, ◌<◌, ◌≡◌, ◌∙◌, ◌⊎◌, inl, inr, refl, List, [], ◌∷◌, All, arith, sym,
}
use mathlib.Core.Path.{subst}
use linux_pcie_dma.SampleChar.{
  SampleChar, buf_len, sample_char_open, sample_char_release, sample_char_read, sample_char_write,
  sample_char_llseek,
}

-- The file operations, with their buffers and counts.
pub data FileOperation : Type 0 where
  opens releases seeks : FileOperation
  reads writes : (buffer count : ℕ) → FileOperation

-- A write no larger than the array.
abbrev pub Fits : FileOperation → Type 0
Fits (writes buffer count) = count ≤ buf_len
Fits _ = Unit

-- `msg_last_char` is NULL, or at most one element before the array or in it.
abbrev pub InRange : ℕ → SampleChar → Type 0
InRange msg_at s =
    (s.msg_last_char ≡ 0) ⊎ ((msg_at ≤ s.msg_last_char + 1) × (s.msg_last_char < msg_at + buf_len))

module _ (msg_at : ℕ) {M : Type 0} (copy_to_user : M → (to from count : ℕ) → ℕ × M)
    (copy_from_user : M → (from count : ℕ) → ℕ × List ℕ) where
  unfoldable pub perform : FileOperation → SampleChar × M → SampleChar × M
  perform opens (s, memory) = ((sample_char_open msg_at s).1, memory)
  perform releases (s, memory) = ((sample_char_release s).1, memory)
  perform seeks (s, memory) = ((sample_char_llseek msg_at s).1, memory)
  perform (reads buffer count) sm = (sample_char_read msg_at copy_to_user sm buffer count).1
  perform (writes buffer count) sm = (sample_char_write msg_at copy_from_user sm buffer count).1

  unfoldable pub run : List FileOperation → SampleChar × M → SampleChar × M
  run [] sm = sm
  run (op ∷ ops) sm = run ops (perform op sm)

  -- `msg` is a kernel address with 16 numbers free before it and the array behind it.
  module _ (low : 16 < msg_at) (high : msg_at + 128 < 2 ^ 64)
      (refuses : (memory : M) (from count : ℕ)
        → copy_to_user memory msg_at from count ≡ (count, memory)) where
    read-InRange :
        (s : SampleChar) (memory : M) (buffer count : ℕ)
        → InRange msg_at s
        → sample_char_read msg_at copy_to_user (s, memory) buffer count
          ≡ (count, (record s { msg_last_char = msg_at }, memory))
    unfolding sample_char_read
    read-InRange s memory buffer count r = rw (refuses memory buffer count) (ground arith)

    perform-InRange :
        (op : FileOperation) (s : SampleChar) (memory : M)
        → Fits op
        → InRange msg_at s
        → InRange msg_at (perform op (s, memory)).0 × ((perform op (s, memory)).1 ≡ memory)
    unfolding perform sample_char_open sample_char_release sample_char_llseek sample_char_write
    perform-InRange opens s memory f r = (inr (omega arith, omega arith), refl)
    perform-InRange releases s memory f r = (inl refl, refl)
    perform-InRange seeks s memory f r = (inr (omega arith, omega arith), refl)
    perform-InRange (reads buffer count) s memory f r =
        subst (λ reply. InRange msg_at reply.1.0 × (reply.1.1 ≡ memory))
          (sym (read-InRange s memory buffer count r)) (inr (omega arith, omega arith), refl)
    perform-InRange (writes buffer count) s memory f r = (ground arith, ground arith)

    run-InRange :
        (ops : List FileOperation) (s : SampleChar) (memory : M)
        → All Fits ops
        → InRange msg_at s
        → InRange msg_at (run ops (s, memory)).0 × ((run ops (s, memory)).1 ≡ memory)
    unfolding run
    run-InRange [] s memory f r = (r, refl)
    run-InRange (op ∷ ops) s memory f r =
        let (r', same) = perform-InRange op s memory f.0 r in
        let (final, kept) =
          run-InRange ops (perform op (s, memory)).0 (perform op (s, memory)).1 f.1 r' in
        (final, kept ∙ same)

    -- After any opens, closes, seeks, reads and writes of at most 100 bytes, from a NULL pointer or
    -- one in the array, with `copy_to_user` refusing a kernel address: a read never finds the
    -- message read already, and it reports as many bytes as it was asked for. But neither the
    -- operations before it nor the read itself change the user's memory.
    pub sample_char_read_lem :
        (ops : List FileOperation) (s : SampleChar) (memory : M) (buffer count : ℕ)
        → All Fits ops
        → InRange msg_at s
        → let after = (run ops (s, memory)).0 in
          sample_char_read msg_at copy_to_user (run ops (s, memory)) buffer count
          ≡ (count, (record after { msg_last_char = msg_at }, memory))
    sample_char_read_lem ops s memory buffer count f r =
        let (r', same) = run-InRange ops s memory f r in
        subst
          (λ m.
            sample_char_read msg_at copy_to_user ((run ops (s, memory)).0, m) buffer count
            ≡ (count, (record (run ops (s, memory)).0 { msg_last_char = msg_at }, memory)))
          (sym same) (read-InRange (run ops (s, memory)).0 memory buffer count r')
