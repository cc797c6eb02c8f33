-- ===== src/PcieEcho/Module.antt =====
-- The echo module from its init to its exit, pcie-echo/pcie_fpga_echo.c:34-39 and 122-152: the kernel
-- runs echo_probe for each attachment of the device, and echo_remove unless the probe returned a
-- negative error. A failed test returns 1, which the kernel takes for success.
use linux_pcie_dma.Common.{
  ℕ, false, refl, Option, none, some, suc, ◌+◌, ◌≡◌, Bool, true, not, ◌&&◌, ◌⊎◌, List, [], ◌∷◌,
  ◌++◌, arith, All, ℤ, pos, if◌then◌else◌, is_nonzero, is_below,
}
use linux_pcie_dma.Driver.{Mmio}
use linux_pcie_dma.Driver.Resources.{
  Event, takes, gives, private_struct, device_enabled, memory_region, mapping, pci_driver, taken,
  given, taken-append, given-append,
}
use linux_pcie_dma.PcieEcho.{ProbeCalls, returned, oopsed, echo_probe, echo_remove}

-- The module's init and exit; what pci_register_driver answers is given.
unfoldable pub echo_init : (pci_register_driver : ℤ) → ℤ × List Event
echo_init pci_register_driver =
    (pci_register_driver, if is_below pci_register_driver 0 then [] else takes pci_driver ∷ [])

unfoldable pub echo_exit : List Event
echo_exit = gives pci_driver ∷ []

-- Whether echo_probe comes to pci_set_drvdata.
abbrev pub sets_drvdata : ProbeCalls → Bool
sets_drvdata c =
    not (is_nonzero c.enable_device)
    && not (is_nonzero c.enable_device_mem)
    && not (is_nonzero c.request_region)
    && c.allocated

abbrev is_null : Option ℕ → Bool
is_null none = true
is_null (some dev_mem) = false

-- One attachment: what the local variable of run_test held, and the outcomes of the calls.
pub record Attachment : Type 0 where
  pub uninitialised : ℕ
  pub calls : ProbeCalls

-- What is left of an attachment, or of several: the log and the state; after an access through NULL
-- nothing more happens.
pub data Life (S : Type 0) : Type 0 where
  ended : List Event → S → Life S
  faulted : List Event → S → Life S

module _ {S : Type 0} (memory : Mmio S) where
  unfoldable pub attach : Attachment → S → Life S
  unfolding echo_probe echo_remove
  attach a s = elim (echo_probe memory a.uninitialised a.calls s) [
    | oopsed log s' ↦ faulted log s'
    | returned error log s' ↦
        ended (if is_below error 0 then log else log ++ echo_remove (sets_drvdata a.calls)) s'
  ]

  unfoldable pub attachments : List Attachment → S → Life S
  attachments [] s = ended [] s
  attachments (a ∷ rounds) s = elim (attach a s) [
    | faulted log s' ↦ faulted log s'
    | ended log s' ↦ elim (attachments rounds s') [
      | faulted rest s'' ↦ faulted (log ++ rest) s''
      | ended rest s'' ↦ ended (log ++ rest) s''
    ]
  ]

  -- Loading the module, the attachments if that succeeded, and unloading it.
  unfoldable pub module_life : (pci_register_driver : ℤ) → List Attachment → S → Life S
  unfolding echo_init echo_exit
  module_life pci_register_driver rounds s =
      let (error, log) = echo_init pci_register_driver in
      if is_below error 0 then ended log s else (elim (attachments rounds s) [
        | faulted rest s' ↦ faulted (log ++ rest) s'
        | ended rest s' ↦ ended (log ++ (rest ++ echo_exit)) s'
      ])

-- A kernel call returns 0 or a negative error.
abbrev IsStatus : ℤ → Type 0
IsStatus error = (error ≡ pos 0) ⊎ (is_below error 0 ≡ true)

-- What the kernel documents of the calls in echo_probe.
pub record IsDocumented (a : Attachment) : Type 0 where
  pub enable_device : IsStatus a.calls.enable_device
  pub enable_device_mem : IsStatus a.calls.enable_device_mem
  pub request_region : IsStatus a.calls.request_region

abbrev pub enables : Attachment → Bool
enables a = not (is_nonzero a.calls.enable_device)

abbrev pub maps : Attachment → Bool
maps a = sets_drvdata a.calls

-- ioremap answered NULL, and the test goes through it.
abbrev pub meets_null : Attachment → Bool
meets_null a = sets_drvdata a.calls && is_null a.calls.dev_mem

abbrev pub Remaps : Attachment → Type 0
Remaps a = meets_null a ≡ false

abbrev pub count_if : (Attachment → Bool) → List Attachment → ℕ
count_if test [] = 0
count_if test (a ∷ rounds) = if test a then suc (count_if test rounds) else count_if test rounds

-- What a log leaves taken.
pub record Leaves (enabled mapped : ℕ) (log : List Event) : Type 0 where
  pub device_enabled : taken device_enabled log ≡ given device_enabled log + enabled
  pub mapping : taken mapping log ≡ given mapping log + mapped
  pub private_struct : taken private_struct log ≡ given private_struct log
  pub memory_region : taken memory_region log ≡ given memory_region log
  pub pci_driver : taken pci_driver log ≡ given pci_driver log

Leaves-append :
    (m n i j : ℕ) (es fs : List Event)
    → Leaves m i es
    → Leaves n j fs
    → Leaves (m + n) (i + j) (es ++ fs)
Leaves-append m n i j es fs p q = record {
  device_enabled = ground (
    arith,
    p.device_enabled,
    q.device_enabled,
    taken-append device_enabled es fs,
    given-append device_enabled es fs,
  );
  mapping =
      ground (arith, p.mapping, q.mapping, taken-append mapping es fs, given-append mapping es fs);
  private_struct = ground (
    arith,
    p.private_struct,
    q.private_struct,
    taken-append private_struct es fs,
    given-append private_struct es fs,
  );
  memory_region = ground (
    arith,
    p.memory_region,
    q.memory_region,
    taken-append memory_region es fs,
    given-append memory_region es fs,
  );
  pci_driver = ground (
    arith,
    p.pci_driver,
    q.pci_driver,
    taken-append pci_driver es fs,
    given-append pci_driver es fs,
  );
}

framed-Leaves :
    (m i : ℕ) (log : List Event)
    → Leaves m i log
    → Leaves m i ((takes pci_driver ∷ []) ++ (log ++ (gives pci_driver ∷ [])))
framed-Leaves m i log h = record {
  device_enabled = ground (
    arith,
    h.device_enabled,
    taken-append device_enabled log (gives pci_driver ∷ []),
    given-append device_enabled log (gives pci_driver ∷ []),
  );
  mapping = ground (
    arith,
    h.mapping,
    taken-append mapping log (gives pci_driver ∷ []),
    given-append mapping log (gives pci_driver ∷ []),
  );
  private_struct = ground (
    arith,
    h.private_struct,
    taken-append private_struct log (gives pci_driver ∷ []),
    given-append private_struct log (gives pci_driver ∷ []),
  );
  memory_region = ground (
    arith,
    h.memory_region,
    taken-append memory_region log (gives pci_driver ∷ []),
    given-append memory_region log (gives pci_driver ∷ []),
  );
  pci_driver = ground (
    arith,
    h.pci_driver,
    taken-append pci_driver log (gives pci_driver ∷ []),
    given-append pci_driver log (gives pci_driver ∷ []),
  );
}

abbrev life_log : {S : Type 0} → Life S → List Event
life_log (ended log s) = log
life_log (faulted log s) = log

abbrev life_last : {S : Type 0} → Life S → S
life_last (ended log s) = s
life_last (faulted log s) = s

-- Attachments that come to their end, and what they leave.
record Done {S : Type 0} (enabled mapped : ℕ) (life : Life S) : Type 0 where
  log : List Event
  last : S
  ends : life ≡ ended log last
  leaves : Leaves enabled mapped log

module _ {S : Type 0} (memory : Mmio S) where
  attach-Done :
      (a : Attachment) (s : S)
      → IsDocumented a
      → Remaps a
      → Done (if enables a then 1 else 0) (if maps a then 1 else 0) (attach memory a s)
  unfolding attach
  attach-Done a s d n = record {
    log = life_log (attach memory a s);
    last = life_last (attach memory a s);
    ends = ground arith;
    leaves = record {
      device_enabled = ground arith;
      mapping = ground arith;
      private_struct = ground arith;
      memory_region = ground arith;
      pci_driver = ground arith;
    };
  }

  attachments-Done :
      (rounds : List Attachment) (s : S)
      → All IsDocumented rounds
      → All Remaps rounds
      → Done (count_if enables rounds) (count_if maps rounds) (attachments memory rounds s)
  unfolding attachments
  attachments-Done [] s d n = record { log = []; last = s; ends = refl; leaves = ground arith }
  attachments-Done (a ∷ rounds) s d n =
      let first = attach-Done a s d.0 n.0 in
      let rest = attachments-Done rounds first.last d.1 n.1 in
      let both =
        Leaves-append (if enables a then 1 else 0) (count_if enables rounds)
          (if maps a then 1 else 0) (count_if maps rounds) first.log rest.log first.leaves
          rest.leaves in
      record {
        log = first.log ++ rest.log;
        last = rest.last;
        ends = rw (attachments, first.ends, rest.ends) refl;
        leaves = ground (arith, both);
      }

  -- Over the whole life of the module, with any number of attachments whose calls have the outcomes
  -- that the kernel documents, and in which ioremap does not answer NULL when it is called: the
  -- module's life ends without a fault, each attachment that could be enabled leaves the device
  -- enabled once more, each one that came as far as the test, passed or not, leaves the registers
  -- mapped once more, and all else is given back.
  pub module_leaks :
      (rounds : List Attachment) (s : S)
      → All IsDocumented rounds
      → All Remaps rounds
      → (log : List Event) × (last : S) × (module_life memory (pos 0) rounds s ≡ ended log last)
        × Leaves (count_if enables rounds) (count_if maps rounds) log
  unfolding module_life
  module_leaks rounds s d n =
      let all = attachments-Done rounds s d n in
      (
        (takes pci_driver ∷ []) ++ (all.log ++ (gives pci_driver ∷ [])),
        all.last,
        rw all.ends refl,
        framed-Leaves (count_if enables rounds) (count_if maps rounds) all.log all.leaves,
      )
