-- ===== src/Driver/Chardev.antt =====
-- The character device's transfers: _fpga_char_read, fpga_char_read, fpga_char_write and
-- fpga_char_ioctl, fpga-char/chardev.c:176-320, over any bus. Each loop of a file operation runs on
-- fuel, one unit for each round. The file offset is never negative.
pub mod Transfer
pub mod Writes
pub mod Files
pub mod History
pub mod Lifetime
pub mod Requests
use linux_pcie_dma.Common.{
  ℕ, zero, suc, ◌+◌, ◌*◌, ◌-◌, ◌%◌, ◌^◌, Bool, true, false, not, Option, none, some, List, [], ◌∷◌,
  ltb, ◌==◌, if◌then◌else◌, u32,
}
use linux_pcie_dma.Registers.{sizeof_unsigned_long}
use linux_pcie_dma.Registers.Driver.{
  batch_factor_reg, max_num_virtines_reg, doorbell_reg, snapshot_size_reg, snapshot_addr_reg,
}
use linux_pcie_dma.Driver.{Mmio, Errno, eio, efault, enotty, Reply, returns, fails}

-- `sizeof(u32)` and `sizeof(unsigned int)`
abbrev pub sizeof_u32 : ℕ
sizeof_u32 = 4

-- memcpy of a 32-bit word to a byte offset of an `unsigned long`, on a little-endian machine.
-- Beyond the eight bytes it leaves the variable alone (and overwrites what lies behind it).
abbrev pub store_word : ℕ → ℕ × ℕ → ℕ
store_word old (at, word) =
    if at == 0 then (old - u32 old) + word else if at == 4 then u32 old + word * 2 ^ 32 else old

abbrev pub store_words : ℕ → List (ℕ × ℕ) → ℕ
store_words old [] = old
store_words old (w ∷ ws) = store_words (store_word old w) ws

-- The ioctl requests that the module knows; its numbers come from the kernel's _IO macros.
pub data Request : Type 0 where
  fpga_char_modify_batch_factor fpga_char_get_max_num_virtines : Request
  fpga_char_ring_doorbell fpga_char_set_snapshot unknown : Request

module _ {S : Type 0} (bus : Mmio S) where
  open bus use {ioread32, iowrite32}

  -- The `while` of _fpga_char_read, from `bytes_read` on: the words stored into the buffer, each
  -- with its offset, the count at the end and the state.
  unfoldable pub read_while : ℕ → S → ℕ → ℕ → ℕ → Option (ℕ × List (ℕ × ℕ) × S)
  read_while zero s offset length bytes_read = none
  read_while (suc fuel) s offset length bytes_read = elim (ltb bytes_read length) [
    | false ↦ some (bytes_read, [], s)
    | true ↦
        let (word, s') = ioread32 s (offset + bytes_read) in
        elim (read_while fuel s' offset length (bytes_read + sizeof_u32)) [
          | none ↦ none
          | some (total, words, final) ↦ some (total, (bytes_read, word) ∷ words, final)
        ]
  ]

  unfoldable pub fpga_char_read_kernel : ℕ → S → ℕ → ℕ → Option (ℕ × List (ℕ × ℕ) × S)
  fpga_char_read_kernel fuel s length offset =
      if not ((offset % 4) == 0) then some (0, [], s) else read_while fuel s offset length 0

  -- `uninitialised` is what the local variable held, `copy_failed` what copy_to_user answers. The
  -- option is the `unsigned long` that reached the user's buffer.
  unfoldable pub fpga_char_read :
      ℕ → (uninitialised : ℕ) (copy_failed : Bool) → S → ℕ → ℕ → Option (Reply × Option ℕ × S)
  fpga_char_read fuel uninitialised copy_failed s length offset =
      elim (fpga_char_read_kernel fuel s length offset) [
        | none ↦ none
        | some (bytes_read, words, s') ↦ some (
            if bytes_read == 0
            then (fails eio, none, s')
            else if copy_failed
            then (fails efault, none, s')
            else (returns bytes_read, some (store_words uninitialised words), s'))
      ]

  module _ (copy_from_user : ℕ → ℕ × ℕ) where
    -- `copy_from_user` gives, for a user address, the bytes it could not copy and the word that it
    -- leaves in `dirty_virtine_addr`. The first of the two is stored and never looked at.
    unfoldable pub write_while : ℕ → S → ℕ → ℕ → ℕ → ℕ → Option (ℕ × S)
    write_while zero s buffer offset length bytes_written = none
    write_while (suc fuel) s buffer offset length bytes_written = elim (ltb bytes_written length) [
      | false ↦ some (bytes_written, s)
      | true ↦
          let (bytes_from_user, dirty_virtine_addr) = copy_from_user (buffer + bytes_written) in
          write_while fuel (iowrite32 dirty_virtine_addr (offset + bytes_written) s) buffer offset
            length (bytes_written + sizeof_u32)
    ]

    unfoldable pub fpga_char_write : ℕ → S → ℕ → ℕ → ℕ → Option (ℕ × S)
    unfolding write_while
    fpga_char_write fuel s buffer length offset =
        if not ((offset % 4) == 0) then some (0, s) else write_while fuel s buffer offset length 0

    -- What was stored through `args` is the option: the variable `*num_virtines`. In `struct
    -- virtine_snapshot` the address comes first and the size eight bytes behind it. Three units of
    -- fuel carry out eight bytes.
    unfoldable pub fpga_char_ioctl : S → Request → ℕ → Option (Reply × Option ℕ × S)
    unfolding fpga_char_write
    fpga_char_ioctl s fpga_char_modify_batch_factor args =
        some (returns 0, none, iowrite32 (u32 args) batch_factor_reg s)
    fpga_char_ioctl s fpga_char_get_max_num_virtines args =
        let (num_virtines, s') = ioread32 s max_num_virtines_reg in
        some (returns 0, some num_virtines, s')
    fpga_char_ioctl s fpga_char_ring_doorbell args =
        some (returns 0, none, iowrite32 1 doorbell_reg s)
    fpga_char_ioctl s fpga_char_set_snapshot args =
        elim (fpga_char_write 3 s (args + sizeof_unsigned_long) sizeof_unsigned_long
          snapshot_size_reg) [
            | none ↦ none
            | some (_, s') ↦
                elim (fpga_char_write 3 s' args sizeof_unsigned_long snapshot_addr_reg) [
                  | none ↦ none
                  | some (ret, s'') ↦ some (returns ret, none, s'')
                ]
          ]
    fpga_char_ioctl s unknown args = some (fails enotty, none, s)
