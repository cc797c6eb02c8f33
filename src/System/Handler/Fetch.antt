-- ===== src/System/Handler/Fetch.antt =====
-- One eight-byte read of the handler, fpga-char/chardev.c:176-209, while the clean-up thread works
-- before each of its two accesses.
use linux_pcie_dma.Common.{
  ℕ, ◌+◌, ◌^◌, ◌<◌, ◌≡◌, refl, sym, ap, ◌∙◌, true, false, some, List, [], ◌∷◌, ◌++◌, arith, All,
  All-split, Bool-cases, inl, inr, ◌==◌, if◌then◌else◌,
}
use linux_pcie_dma.Registers.Driver
use linux_pcie_dma.Device.{DeviceState, Holds}
use linux_pcie_dma.Device.Machine.{Machine}
use mathlib.Core.Path.{subst}
use mathlib.Core.List.{append-nil}
use linux_pcie_dma.RingQueue.{pop_head}
use linux_pcie_dma.Device.Mmio.{virtine_fpga_mmio_read}
use linux_pcie_dma.Device.Machine.Batch.{CleanerSteps}
use linux_pcie_dma.Driver.Chardev.{read_while, store_words, fpga_char_read_kernel}
use linux_pcie_dma.System.Handler.{read_at, got_in, later_entries, machine_bus, Interleaved}
use linux_pcie_dma.System.Handler.Run.{
  Run, CleanerSteps-Run, read_at-Run, CleanerSteps-SameGuest, Interleaved-Entry, Run-Covered,
}

-- One eight-byte read of the handler, in two accesses: the address that it gives, the device as the
-- first access finds it and as the second one does, and the device after both.
pub record Fetch (s : DeviceState) (m : Machine) (entries : List Machine) : Type 0 where
  pub virtine : ℕ
  pub after : Machine
  pub coming : List Machine
  pub words : List (ℕ × ℕ)
  pub read :
      fpga_char_read_kernel machine_bus 3 (m, entries) 8 Driver.cq_head_offset_reg
      ≡ some (8, words, (after, coming))
  pub found : Machine
  pub entered : Machine
  pub run_found : Run s found
  pub popped : virtine ≡ (pop_head found.device.fpga.cq).0
  pub found_fetched : found.fetched ≡ m.fetched
  pub between : CleanerSteps (read_at found Driver.cq_head_offset_reg) entered
  pub after_entered : after ≡ read_at entered (Driver.cq_head_offset_reg + 4)
  pub value : (old : ℕ) → store_words old words ≡ virtine
  pub run : Run s after
  pub accepted : after.accepted ≡ m.accepted
  pub fetched : after.fetched ≡ m.fetched ++ (if virtine == 0 then [] else virtine ∷ [])
  pub interleaved : Interleaved false after coming

taken_word :
    (fetched : List ℕ) (v : ℕ)
    → All (λ v. v < 2 ^ 64) (fetched ++ (if v == 0 then [] else v ∷ []))
    → v < 2 ^ 64
taken_word fetched v h = elim (Bool-cases (v == 0)) [
  | inl zero_word ↦ ground arith
  | inr nonzero ↦
      (All-split (λ v. v < 2 ^ 64) fetched (v ∷ [])
        (subst (λ b. All (λ v. v < 2 ^ 64) (fetched ++ (if b then [] else v ∷ []))) nonzero h)).1.0
]

pub fetch :
    {s : DeviceState} (m : Machine) (entries : List Machine)
    → Run s m
    → Holds s.fpga [] []
    → All (λ v. v < 2 ^ 64) m.accepted
    → Interleaved false m entries
    → Fetch s m entries
unfolding fpga_char_read_kernel read_while machine_bus read_at virtine_fpga_mmio_read
fetch m entries r h words i =
    let first = Interleaved-Entry false m entries i in
    let m1 = got_in m entries in
    let popped : ℕ = (pop_head m1.device.fpga.cq).0 in
    let a1 = read_at m1 Driver.cq_head_offset_reg in
    let run1 : _ =
      read_at-Run Driver.cq_head_offset_reg first.open_there (CleanerSteps-Run first.steps r) in
    let second = Interleaved-Entry true a1 (later_entries entries) first.rest in
    let m2 = got_in a1 (later_entries entries) in
    let run2 =
      read_at-Run (Driver.cq_head_offset_reg + 4) second.open_there
        (CleanerSteps-Run second.steps run1) in
    let same1 = CleanerSteps-SameGuest first.steps in
    let same2 = CleanerSteps-SameGuest second.steps in
    let grown : a1.fetched ≡ m.fetched ++ (if popped == 0 then [] else popped ∷ []) =
      ap (λ l. l ++ (if popped == 0 then [] else popped ∷ [])) same1.fetched in
    let kept : a1.accepted ≡ m.accepted = append-nil m1.accepted ∙ same1.accepted in
    let half : m2.device.split_return ≡ popped = same2.half in
    let small : popped < 2 ^ 64 = taken_word m.fetched popped (
      subst (All (λ v. v < 2 ^ 64)) grown
        (Run-Covered run1 h (subst (All (λ v. v < 2 ^ 64)) (sym kept) words)).words) in
    record {
      virtine = popped;
      after = read_at m2 (Driver.cq_head_offset_reg + 4);
      coming = later_entries (later_entries entries);
      words = _;
      read = refl;
      found = m1;
      entered = m2;
      run_found = CleanerSteps-Run first.steps r;
      popped = refl;
      found_fetched = same1.fetched;
      between = second.steps;
      after_entered = refl;
      value = λ old. rw half (omega arith);
      run = run2;
      accepted = append-nil m2.accepted ∙ same2.accepted ∙ kept;
      fetched = append-nil m2.fetched ∙ same2.fetched ∙ grown;
      interleaved = second.rest;
    }
