-- ===== src/Driver/Module/Windows.antt =====
-- When the interrupt handler may run, and when it can: the order in which fpga_probe takes what the
-- handler needs and fpga_remove gives it back, fpga-char/fpga_char_main.c:72-151 and 182-202.
use linux_pcie_dma.Common.{
  ℕ, sym, ◌∙◌, Option, some, zero, suc, ◌≤◌, ◌<◌, ◌≡◌, refl, ap, ◌↔◌, ◌⊎◌, Bool, true, false, not,
  ◌&&◌, List, ◌++◌, arith, take, take_all, ltb, ◌==◌, ◌||◌, if◌then◌else◌,
}
use native.Mathlib.Decide.{dec_lt}
use linux_pcie_dma.Driver.Resources.{
  Resource, Event, irq_handler, mapping, private_struct, taken, given,
}
use linux_pcie_dma.Driver.Chardev.Files.{PrivateData, live, CharDev, handler_private_data}
use linux_pcie_dma.Driver.Probe.{ProbeCalls, fpga_probe, fpga_remove}
use linux_pcie_dma.Driver.Probe.Balance.{InterruptsReady, CharDevsMade, full_log, fpga_probe_done}

abbrev pub is_held : Resource → List Event → Bool
is_held r log = ltb (given r log) (taken r log)

-- After the first `k` calls of an attachment that take or give something.
abbrev pub moment : ProbeCalls → ℕ → List Event
moment c k = take k ((fpga_probe c).1 ++ fpga_remove)

abbrev is_live : Option PrivateData → Bool
is_live (some (live _)) = true
is_live _ = false

-- What the handler goes through in the memory of the files: fpga->filep->private_data.
abbrev pub has_live_file : CharDev → Bool
has_live_file s = is_live (handler_private_data s)

abbrev pub has_device : List Event → Bool
has_device log = is_held private_struct log && is_held mapping log

-- The handler is registered, and of what it reads something is not there: struct fpga_device, the
-- mapping of the registers, or live private data behind the file opened last.
abbrev pub is_exposed : CharDev → List Event → Bool
is_exposed s log = is_held irq_handler log && not (has_device log && has_live_file s)

abbrev at_moment : (List Event → Bool) → ℕ → Bool
at_moment test k = test (take k (full_log ++ fpga_remove))

abbrev exposed_log : ℕ → Bool
exposed_log = at_moment (λ log. is_held irq_handler log && not (has_device log))

abbrev registered_log : ℕ → Bool
registered_log = at_moment (is_held irq_handler)

abbrev in_window : ℕ → Bool
in_window k = (k == 6) || (k == 16) || (k == 17)

abbrev in_registration : ℕ → Bool
in_registration k = ltb 5 k && ltb k 18

abbrev same_bool : Bool → Bool → Bool
same_bool a b = if a then b else not b

abbrev agrees : ℕ → Bool
agrees k =
    same_bool (exposed_log k) (in_window k) && same_bool (registered_log k) (in_registration k)

-- Whether a test holds of all numbers below a bound.
all_below : ℕ → (ℕ → Bool) → Bool
all_below zero test = true
all_below (suc n) test = test n && all_below n test

all_below_sound :
    (n : ℕ) (test : ℕ → Bool) (k : ℕ) → all_below n test ≡ true → k < n → test k ≡ true
unfolding all_below
all_below_sound zero test k h l = absurd (omega arith)
all_below_sound (suc n) test k h l = ground (arith, all_below_sound n test k)

agrees_below : all_below 22 agrees ≡ true
unfolding all_below fpga_remove
agrees_below = refl

-- Past its end the log stays as it is.
past_end : (k : ℕ) → 22 ≤ k → take k (full_log ++ fpga_remove) ≡ full_log ++ fpga_remove
unfolding fpga_remove
past_end k g = take_all k (full_log ++ fpga_remove) (omega arith)

same_bool-eq : (a b : Bool) → same_bool a b ≡ true → a ≡ b
same_bool-eq a b h = ground arith

and_split : (a b : Bool) → a && b ≡ true → (a ≡ true) × (b ≡ true)
and_split a b h = (ground arith, ground arith)

over_window : (k : ℕ) → 22 ≤ k → in_window k ≡ false
over_window k g = ground arith

over_registration : (k : ℕ) → 22 ≤ k → in_registration k ≡ false
over_registration k g = ground arith

-- At each moment of a full attachment.
record Moment (k : ℕ) : Type 0 where
  exposed : exposed_log k ≡ in_window k
  registered : registered_log k ≡ in_registration k

moments : (k : ℕ) → Moment k
unfolding fpga_remove
moments k = elim (dec_lt k 22) [
  | yes l ↦
      let both =
        and_split (same_bool (exposed_log k) (in_window k))
          (same_bool (registered_log k) (in_registration k))
          (all_below_sound 22 agrees k agrees_below l) in
      record {
        exposed = same_bool-eq (exposed_log k) (in_window k) both.0;
        registered = same_bool-eq (registered_log k) (in_registration k) both.1;
      }
  | no g ↦
      let over : 22 ≤ k = omega arith in
      record {
        exposed =
            ap (λ log. is_held irq_handler log && not (has_device log)) (past_end k over)
            ∙ sym (over_window k over);
        registered = ap (is_held irq_handler) (past_end k over) ∙ sym (over_registration k over);
      }
]

-- In an attachment in which everything succeeds, the interrupt handler is registered from the sixth
-- to the seventeenth of the calls that take or give something. In that time, of what it reads
-- something is missing exactly after request_irq, before the registers are mapped; after iounmap;
-- after kfree of struct fpga_device, until free_irq; and at any other of these moments if no file was
-- opened, or the one opened last is closed.
pub handler_exposed_iff :
    (c : ProbeCalls) (s : CharDev) (k : ℕ)
    → InterruptsReady c
    → c.remapped ≡ true
    → CharDevsMade c.char_devs
    → is_exposed s (moment c k) ≡ true
      ↔ ((k ≡ 6) ⊎ (k ≡ 16) ⊎ (k ≡ 17) ⊎ ((6 ≤ k) × (k ≤ 17) × (has_live_file s ≡ false)))
handler_exposed_iff c s k ready mapped made = rw (fpga_probe_done c ready mapped made) (
    decided k (registered_log k) (at_moment has_device k) (has_live_file s) (moments k).exposed
      (moments k).registered)
  where
    decided :
        (k : ℕ) (registered device file : Bool)
        → registered && not device ≡ in_window k
        → registered ≡ in_registration k
        → (registered && not (device && file)) ≡ true
          ↔ ((k ≡ 6) ⊎ (k ≡ 16) ⊎ (k ≡ 17) ⊎ ((6 ≤ k) × (k ≤ 17) × (file ≡ false)))
    decided k registered device file e r = (λ h. ground arith, λ h. ground arith)
