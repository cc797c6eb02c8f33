-- ===== src/SampleChar.antt =====
-- The kernel module of sample-char/: sample_char.c:15-143. `msg_at` is the address of the array
-- `msg`; a pointer is a number of 64 bits. User memory is `M`, and the two copies between it and
-- the kernel are given. A copy that runs past the end of `msg` overwrites what lies behind it,
-- which is not modelled.
pub mod Queue
pub mod Message
pub mod Life
use linux_pcie_dma.Common.{
  ℕ, zero, suc, ◌+◌, ◌-◌, ◌%◌, ◌^◌, Bool, List, [], ◌∷◌, ◌==◌, if◌then◌else◌, set, get_or, ℤ, pos,
  is_below,
}

abbrev pub buf_len : ℕ
buf_len = 100

pub record SampleChar : Type 0 where
  pub major_num : ℤ
  pub msg : List ℕ
  pub msg_last_char : ℕ

-- "Hello World\0", in ASCII.
abbrev pub working_string : List ℕ
working_string = 72 ∷ 101 ∷ 108 ∷ 108 ∷ 111 ∷ 32 ∷ 87 ∷ 111 ∷ 114 ∷ 108 ∷ 100 ∷ 0 ∷ []

-- `p + n` for a `char *`.
abbrev pub advance : ℕ → ℕ → ℕ
advance p n = (p + n) % 2 ^ 64

-- Bytes copied over the first ones of an array.
abbrev pub overwrite : List ℕ → List ℕ → List ℕ
overwrite [] bytes = []
overwrite (x ∷ xs) [] = x ∷ xs
overwrite (x ∷ xs) (b ∷ bytes) = b ∷ overwrite xs bytes

-- What register_chrdev answered is given.
unfoldable pub sample_char_init : (registered : ℤ) → SampleChar → ℤ × SampleChar
sample_char_init registered s =
    let s' = record s { major_num = registered } in
    if is_below registered 0 then (registered, s') else (pos 0, s')

-- The major number that unregister_chrdev is given.
unfoldable pub sample_char_exit : SampleChar → ℤ
sample_char_exit s = s.major_num

-- The loop of sample_char_open, with the rounds that remain and `i`.
unfoldable pub copy_while : ℕ → List ℕ → ℕ → List ℕ
copy_while zero msg i = msg
copy_while (suc rounds) msg i = copy_while rounds (set msg i (get_or working_string i 0)) (i + 1)

unfoldable pub sample_char_release : SampleChar → ℕ × SampleChar
sample_char_release s = (0, record s { msg_last_char = 0 })

module _ (msg_at : ℕ) where
  unfoldable pub sample_char_open : SampleChar → ℕ × SampleChar
  unfolding copy_while
  sample_char_open s =
      (0, record s { msg = copy_while 12 s.msg 0; msg_last_char = advance msg_at 10 })

  unfoldable pub sample_char_llseek : SampleChar → ℕ × SampleChar
  sample_char_llseek s = (0, record s { msg_last_char = msg_at })

  -- `copy_to_user` takes the place to copy to, the place to copy from and the count, and gives the
  -- bytes not copied; the call here passes `msg` first.
  unfoldable pub sample_char_read :
      {M : Type 0}
      → (copy_to_user : M → (to from length : ℕ) → ℕ × M) → SampleChar × M
      → (buffer length : ℕ) → ℕ × (SampleChar × M)
  sample_char_read copy_to_user (s, memory) buffer length =
      let moved = advance s.msg_last_char 10 in
      let (ret, copied) = copy_to_user memory msg_at buffer length in
      if moved == msg_at
      then (0, (record s { msg_last_char = moved }, memory))
      else (ret, (record s { msg_last_char = msg_at }, copied))

  -- `copy_from_user` gives the bytes not copied, and those that reach `msg`. `length - 1` wraps.
  unfoldable pub sample_char_write :
      {M : Type 0}
      → (copy_from_user : M → (from length : ℕ) → ℕ × List ℕ) → SampleChar × M
      → (buffer length : ℕ) → ℕ × (SampleChar × M)
  sample_char_write copy_from_user (s, memory) buffer length =
      let (ret, bytes) = copy_from_user memory buffer length in
      if s.msg_last_char == advance msg_at (buf_len - 1) then (0, (s, memory)) else (
        ret,
        (
          record s {
            msg = overwrite s.msg bytes;
            msg_last_char = advance msg_at ((length + (2 ^ 64 - 1)) % 2 ^ 64);
          },
          memory,
        ),
      )
