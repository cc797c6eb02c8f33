-- ===== src/TestPrograms/Ioctls.antt =====
-- main of fpga-char-test/test-ioctls.c:23-115.
use Prim.Native.String.{String}
use text.Mathlib.Text.{◌==◌ as strcmp_eq}
use linux_pcie_dma.Common.{
  ℕ, ◌<◌, ◌≡◌, ◌↔◌, ◌⊎◌, inl, inr, refl, sym, ap, ◌∙◌, Option, none, some, List, [], ◌∷◌,
  if◌then◌else◌, ℤ, pos, negsuc, is_below, arith, true, false,
}
use linux_pcie_dma.TestPrograms.{
  SystemCalls, IoctlCall, get_max_num_virtines, ring_doorbell, modify_batch_factor, set_snapshot,
  Outcome, exits, exit_success, exit_failure, argument,
}

-- enum ioctl_to_test
pub data IoctlToTest : Type 0 where
  max_virtines change_batch_factor doorbell snapshot : IoctlToTest

-- The key words, in the order in which they are compared.
unfoldable pub ioctl_to_test : String → Option IoctlToTest
ioctl_to_test word =
    if strcmp_eq "max_virtines" word
    then some max_virtines
    else if strcmp_eq "change_batch_factor" word
    then some change_batch_factor
    else if strcmp_eq "ring_doorbell" word
    then some doorbell
    else if strcmp_eq "set_snapshot" word
    then some snapshot
    else none

Option-cases {ℓ} : {A : Type ℓ} (o : Option A) → (o ≡ none) ⊎ ((a : A) × (o ≡ some a))
Option-cases none = inl refl
Option-cases (some a) = inr (a, refl)

ℤ-cases : (z : ℤ) → ((n : ℕ) × (z ≡ pos n)) ⊎ (is_below z 0 ≡ true)
ℤ-cases (pos n) = inl (n, refl)
ℤ-cases (negsuc n) = inr refl

module _ (strtoul : String → (base : ℕ) → ℕ) where
  -- The call that a test makes; none where the number of arguments is refused.
  unfoldable pub ioctl_call : IoctlToTest → List String → Option IoctlCall
  ioctl_call max_virtines argv = some get_max_num_virtines
  ioctl_call change_batch_factor (_ ∷ _ ∷ factor ∷ []) =
      some (modify_batch_factor (strtoul factor 0))
  ioctl_call change_batch_factor _ = none
  ioctl_call doorbell argv = some ring_doorbell
  ioctl_call snapshot (_ ∷ _ ∷ size ∷ addr ∷ []) =
      some (set_snapshot (strtoul addr 16) (strtoul size 0))
  ioctl_call snapshot _ = none

  module _ {S : Type 0} (calls : SystemCalls S) where
    open calls use {open_virtine_fpga, ioctl, close, errno}

    -- From the open on. Both failures go through `fail_exit`.
    unfoldable pub run_ioctl : S → IoctlToTest → List String → Outcome × S
    unfolding ioctl_call
    run_ioctl s test argv =
        let (virtine_fd, s') = open_virtine_fpga s in
        elim virtine_fd [
          | negsuc n ↦ (exits (errno s'), s')
          | pos fd ↦ elim (ioctl_call test argv) [
            | none ↦ (exits exit_failure, close s' fd)
            | some call ↦
                let (ioctl_ret_val, s'') = ioctl s' fd call in
                if is_below ioctl_ret_val 0
                then (exits exit_failure, close s'' fd)
                else (exits exit_success, s'')
          ]
        ]

    unfoldable pub test_ioctls : List String → S → Outcome × S
    unfolding run_ioctl
    test_ioctls argv s = elim (argument argv 1) [
      | none ↦ (exits exit_failure, s)
      | some word ↦ elim (ioctl_to_test word) [
        | none ↦ (exits (errno s), s)
        | some test ↦ run_ioctl s test argv
      ]
    ]

    -- The arguments fit the test, the open gives a descriptor, and the ioctl does not fail.
    abbrev pub Succeeds : S → IoctlToTest → List String → Type 0
    Succeeds s test argv =
        (call : IoctlCall) × (fd : ℕ) × (ioctl_call test argv ≡ some call)
        × ((open_virtine_fpga s).0 ≡ pos fd)
        × (is_below (ioctl (open_virtine_fpga s).1 fd call).0 0 ≡ false)

    module _ (s : S)
        (sets : is_below (open_virtine_fpga s).0 0 ≡ true → 0 < errno (open_virtine_fpga s).1) where
      run_ioctl_success_iff :
          (test : IoctlToTest) (argv : List String)
          → ((run_ioctl s test argv).0 ≡ exits 0) ↔ Succeeds s test argv
      unfolding run_ioctl
      run_ioctl_success_iff test argv = (
        λ h. elim (ℤ-cases (open_virtine_fpga s).0) [
          | inr failed ↦ absurd (ground arith)
          | inl (fd, opened) ↦ elim (Option-cases (ioctl_call test argv)) [
            | inl refused ↦ absurd (ground arith)
            | inr (call, accepted) ↦ (call, fd, accepted, opened, ground arith)
          ]
        ],
        λ (call, fd, accepted, opened, done). ground arith,
      )

    test_ioctls_known :
        (program word : String) (rest : List String) (s : S) {test : IoctlToTest}
        → ioctl_to_test word ≡ some test
        → test_ioctls (program ∷ word ∷ rest) s ≡ run_ioctl s test (program ∷ word ∷ rest)
    unfolding test_ioctls
    test_ioctls_known program word rest s known = rw (known, test_ioctls) refl

    -- A run with a key word, in which an open that fails leaves `errno` not 0, ends with status 0
    -- in two cases only: the word names a test, its number of arguments fits, and the open and the
    -- ioctl succeed; or the word names no test and `errno` happens to be 0.
    test_ioctls_success_iff :
        (program word : String) (rest : List String) (s : S)
        → (is_below (open_virtine_fpga s).0 0 ≡ true → 0 < errno (open_virtine_fpga s).1)
        → let argv = program ∷ word ∷ rest in
          ((test_ioctls argv s).0 ≡ exits 0) ↔ (
            ((test : IoctlToTest) × (ioctl_to_test word ≡ some test) × Succeeds s test argv)
            ⊎ ((ioctl_to_test word ≡ none) × (errno s ≡ 0)))
    unfolding test_ioctls
    test_ioctls_success_iff program word rest s sets =
        let argv = program ∷ word ∷ rest in
        elim (Option-cases (ioctl_to_test word)) [
          | inl unknown ↦ (λ h. inr (unknown, ground arith), λ h. ground arith)
          | inr (test, known) ↦ (
            λ h. inl (
              test,
              known,
              (run_ioctl_success_iff s sets test argv).0
                  (sym (ap (λ r. r.0) (test_ioctls_known program word rest s known)) ∙ h),
            ),
            λ h. elim h [
              | inl (test', same, succeeds) ↦
                  ap (λ r. r.0) (test_ioctls_known program word rest s same)
                  ∙ (run_ioctl_success_iff s sets test' argv).1 succeeds
              | inr (never, e) ↦ absurd (ground arith)
            ],
          )
        ]
