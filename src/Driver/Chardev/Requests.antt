-- ===== src/Driver/Chardev/Requests.antt =====
-- The numbers of the ioctl requests: those that the module builds, fpga-char/chardev.h:31-41, those
-- that the test programs write out, fpga-char-test/ioctls.h:4-7, and the module's switch over them,
-- fpga-char/chardev.c:283-318.
use linux_pcie_dma.Common.{ℕ, ◌+◌, ◌*◌, ◌^◌, ◌≡◌, ◌==◌, if◌then◌else◌, ◌↔◌, arith}
use linux_pcie_dma.Driver.Chardev.{
  Request, fpga_char_modify_batch_factor, fpga_char_get_max_num_virtines, fpga_char_ring_doorbell,
  fpga_char_set_snapshot, unknown,
}
use linux_pcie_dma.TestPrograms.{
  IoctlCall, get_max_num_virtines, ring_doorbell, modify_batch_factor, set_snapshot,
}

-- The kernel's macros: _IO of a magic and a number, _IOR and _IOW of these and a size.
pub record IoctlMacros : Type 0 where
  pub io : (magic nr : ℕ) → ℕ
  pub ior : (magic nr size : ℕ) → ℕ
  pub iow : (magic nr size : ℕ) → ℕ

-- As the kernel documents them for most machines: the number in the lowest byte, the magic in the
-- next, 14 bits of size, and the direction on top, 1 for a write and 2 for a read.
pub record IsDocumented (macros : IoctlMacros) : Type 0 where
  pub io : (magic nr : ℕ) → macros.io magic nr ≡ magic * 2 ^ 8 + nr
  pub ior :
      (magic nr size : ℕ)
      → macros.ior magic nr size ≡ 2 * 2 ^ 30 + size * 2 ^ 16 + magic * 2 ^ 8 + nr
  pub iow :
      (magic nr size : ℕ) → macros.iow magic nr size ≡ 2 ^ 30 + size * 2 ^ 16 + magic * 2 ^ 8 + nr

abbrev pub ioctl_magic : ℕ
ioctl_magic = 0x46

module _ (macros : IoctlMacros) where
  -- An `unsigned long` and a pointer take eight bytes.
  unfoldable pub modify_batch_factor_number : ℕ
  modify_batch_factor_number = macros.ior ioctl_magic 0x30 8

  unfoldable pub get_max_num_virtines_number : ℕ
  get_max_num_virtines_number = macros.iow ioctl_magic 0x31 8

  unfoldable pub ring_doorbell_number : ℕ
  ring_doorbell_number = macros.io ioctl_magic 0x32

  unfoldable pub set_snapshot_number : ℕ
  set_snapshot_number = macros.ior ioctl_magic 0x33 8

  -- switch(cmd)
  unfoldable pub request_of : (cmd : ℕ) → Request
  request_of cmd =
      if cmd == modify_batch_factor_number
      then fpga_char_modify_batch_factor
      else if cmd == get_max_num_virtines_number
      then fpga_char_get_max_num_virtines
      else if cmd == ring_doorbell_number
      then fpga_char_ring_doorbell
      else if cmd == set_snapshot_number
      then fpga_char_set_snapshot
      else unknown

-- The number that a test program passes.
unfoldable pub call_number : IoctlCall → ℕ
call_number (modify_batch_factor factor) = 0x80084630
call_number get_max_num_virtines = 0x40084631
call_number ring_doorbell = 0x4632
call_number (set_snapshot addr size) = 0x80084633

abbrev pub request_meant : IoctlCall → Request
request_meant (modify_batch_factor factor) = fpga_char_modify_batch_factor
request_meant get_max_num_virtines = fpga_char_get_max_num_virtines
request_meant ring_doorbell = fpga_char_ring_doorbell
request_meant (set_snapshot addr size) = fpga_char_set_snapshot

-- The four numbers that the documented macros give.
record Numbers (macros : IoctlMacros) : Type 0 where
  modify : modify_batch_factor_number macros ≡ 0x80084630
  get_max : get_max_num_virtines_number macros ≡ 0x40084631
  ring : ring_doorbell_number macros ≡ 0x4632
  snapshot : set_snapshot_number macros ≡ 0x80084633

numbers : {macros : IoctlMacros} → IsDocumented macros → Numbers macros
unfolding modify_batch_factor_number get_max_num_virtines_number ring_doorbell_number
    set_snapshot_number
numbers h = record {
  modify = h.ior ioctl_magic 0x30 8;
  get_max = h.iow ioctl_magic 0x31 8;
  ring = h.io ioctl_magic 0x32;
  snapshot = h.ior ioctl_magic 0x33 8;
}

-- With the documented macros, the module takes a number for a request exactly if it is the number
-- that the test programs pass for that request.
pub request_of-call_number :
    (macros : IoctlMacros) (call : IoctlCall) (cmd : ℕ)
    → IsDocumented macros
    → (request_of macros cmd ≡ request_meant call) ↔ (cmd ≡ call_number call)
unfolding call_number request_of
request_of-call_number macros (modify_batch_factor factor) cmd h =
    let known = numbers h in ground arith
request_of-call_number macros get_max_num_virtines cmd h = let known = numbers h in ground arith
request_of-call_number macros ring_doorbell cmd h = let known = numbers h in ground arith
request_of-call_number macros (set_snapshot addr size) cmd h = let known = numbers h in ground arith
