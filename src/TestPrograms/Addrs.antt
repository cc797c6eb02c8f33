-- ===== src/TestPrograms/Addrs.antt =====
-- main of fpga-char-test/test-addrs.c:18-93.
use Prim.Native.String.{String}
use text.Mathlib.Text.{◌==◌ as strcmp_eq}
use text.Mathlib.TextEquality.{eq_iff}
use mathlib.Core.Path.{subst}
use linux_pcie_dma.Common.{
  ℕ, ◌≡◌, ◌≢◌, refl, sym, ◌↔◌, not, ◌||◌, none, some, List, [], ◌∷◌, ◌==◌, if◌then◌else◌, length, ℤ,
  pos, negsuc, is_below, arith,
}
use linux_pcie_dma.TestPrograms.{
  SystemCalls, Outcome, exits, crashes, exit_success, exit_failure, argument,
}

-- enum action
pub data Action : Type 0 where
  read write : Action

module _ {S : Type 0} (calls : SystemCalls S) (strtoul : String → (base : ℕ) → ℕ) where
  open calls use {open_virtine_fpga, pread, pwrite, close, errno}

  -- From the system call's result to the end; only `fail_exit` closes the file.
  unfoldable pub finish : (fd : ℕ) → ℤ × S → Outcome × S
  finish fd (bytes_handled, s) =
      if is_below bytes_handled 0 then (exits exit_failure, close s fd) else (exits exit_success, s)

  -- From the open on.
  unfoldable pub transfer : S → Action → (argc val offset : ℕ) → Outcome × S
  unfolding finish
  transfer s dir argc val offset =
      let (virtine_fd, s') = open_virtine_fpga s in
      elim virtine_fd [
        | negsuc n ↦ (exits (errno s'), s')
        | pos fd ↦
            let fail_exit : Outcome × S = (exits exit_failure, close s' fd) in
            elim dir [
              | read ↦
                  let ((bytes_handled, val'), s'') = pread s' fd offset in
                  if argc == 3 then finish fd (bytes_handled, s'') else fail_exit
              | write ↦ if argc == 4 then finish fd (pwrite s' fd val offset) else fail_exit
            ]
      ]

  -- `strtoul` reads its text, and so does not return for NULL.
  unfoldable pub test_addrs : List String → S → Outcome × S
  unfolding transfer
  test_addrs argv s =
      let argc = length argv in
      if not (argc == 3 || argc == 4) then (exits exit_failure, s) else elim (argument argv 1) [
        | none ↦ (crashes, s)
        | some direction ↦ elim (argument argv 2) [
          | none ↦ (crashes, s)
          | some offset ↦
              if strcmp_eq "read" direction
              then transfer s read argc 0 (strtoul offset 0)
              else if strcmp_eq "write" direction
              then (elim (argument argv 3) [
                | none ↦ (crashes, s)
                | some val ↦ transfer s write argc (strtoul val 0) (strtoul offset 0)
              ])
              else (exits exit_failure, s)
        ]
      ]

  transfer_returns :
      (s : S) (dir : Action) (argc val offset : ℕ) → (transfer s dir argc val offset).0 ≢ crashes
  unfolding transfer finish
  transfer_returns s read argc val offset = ground arith
  transfer_returns s write argc val offset = ground arith

  -- A run with a direction and an offset ends in a crash exactly if the direction is `write` and no
  -- value follows: the test for a missing value comes after the value was read.
  pub test_addrs_crashes_iff :
      (program direction offset : String) (rest : List String) (s : S)
      → ((test_addrs (program ∷ direction ∷ offset ∷ rest) s).0 ≡ crashes)
        ↔ ((direction ≡ "write") × (rest ≡ []))
  unfolding test_addrs
  test_addrs_crashes_iff program direction offset [] s = (
    λ h. (
      sym (
          (eq_iff "write" direction).0
            (ground (arith, transfer_returns s read 3 0 (strtoul offset 0)))),
      refl,
    ),
    λ h. subst (λ d. (test_addrs (program ∷ d ∷ offset ∷ []) s).0 ≡ crashes) (sym h.0) refl,
  )
  test_addrs_crashes_iff program direction offset (val ∷ []) s = ground (
    arith,
    transfer_returns s read 4 0 (strtoul offset 0),
    transfer_returns s write 4 (strtoul val 0) (strtoul offset 0),
  )
  test_addrs_crashes_iff program direction offset (val ∷ more ∷ rest) s = ground arith
