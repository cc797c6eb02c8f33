-- ===== src/TestPrograms.antt =====
-- The programs of fpga-char-test/: test-addrs.c, test-ioctls.c and test-give-virtine.c, each `main`
-- over the system calls that it makes. What they print is left out. `S` is all that a system call
-- can read or change.
pub mod Addrs
pub mod Ioctls
pub mod Give
use Prim.Native.String.{String}
use linux_pcie_dma.Common.{ℕ, zero, suc, Option, none, some, List, [], ◌∷◌, ℤ, pos, negsuc}

-- What ioctls.h calls the requests, with the argument of each; a snapshot is its address and size.
pub data IoctlCall : Type 0 where
  get_max_num_virtines ring_doorbell : IoctlCall
  modify_batch_factor : ℕ → IoctlCall
  set_snapshot : (addr size : ℕ) → IoctlCall

-- open of /dev/virtine_fpga gives a descriptor, or a negative number; pread and pwrite of an
-- `unsigned long` take a descriptor and an offset; pread gives the value as well.
pub record SystemCalls (S : Type 0) : Type 0 where
  pub open_virtine_fpga : S → ℤ × S
  pub pread : S → (fd offset : ℕ) → (ℤ × ℕ) × S
  pub pwrite : S → (fd val offset : ℕ) → ℤ × S
  pub ioctl : S → (fd : ℕ) → IoctlCall → ℤ × S
  pub close : S → (fd : ℕ) → S
  pub errno : S → ℕ

-- How a run ends: with an exit status, or by reading through a NULL pointer.
pub data Outcome : Type 0 where
  exits : ℕ → Outcome
  crashes : Outcome

abbrev pub exit_success : ℕ
exit_success = 0

abbrev pub exit_failure : ℕ
exit_failure = 1

-- `argv[i]`, none for the NULL behind the last argument.
abbrev pub argument : List String → ℕ → Option String
argument [] i = none
argument (a ∷ argv) zero = some a
argument (a ∷ argv) (suc i) = argument argv i
