-- ===== src/Driver/Module/Life.antt =====
-- The module from its init to its exit, fpga-char/fpga_char_main.c:239-252, with attachments in which
-- everything succeeds.
use linux_pcie_dma.Common.{
  ℕ, ◌+◌, ◌≡◌, refl, ◌++◌, arith, List, [], ◌∷◌, All, length, pos, true, ◌==◌, if◌then◌else◌,
}
use linux_pcie_dma.Driver.Resources.{
  Resource, Event, takes, gives, number, device_enabled, pci_driver, taken, given, taken-append,
  given-append,
}
use linux_pcie_dma.Driver.Probe.{ProbeCalls, fpga_probe, fpga_remove}
use linux_pcie_dma.Driver.Probe.Balance.{InterruptsReady, CharDevsMade, fpga_probe-fpga_remove}
use linux_pcie_dma.Driver.Module.{detached, attach, attachments, module_life, fpga_char_main_exit}

-- Every call of an attachment succeeds.
abbrev pub Succeeds : ProbeCalls → Type 0
Succeeds c = InterruptsReady c × (c.remapped ≡ true) × CharDevsMade c.char_devs

abbrev left_enabled : Resource → ℕ → ℕ
left_enabled r n = if number r == number device_enabled then n else 0

attach_done : (c : ProbeCalls) → Succeeds c → attach c ≡ detached ((fpga_probe c).1 ++ fpga_remove)
unfolding attach
attach_done c h = ground arith

attachments_done :
    (cs : List ProbeCalls)
    → All Succeeds cs
    → (log : List Event) × (attachments cs ≡ detached log)
      × ((r : Resource) → taken r log ≡ given r log + left_enabled r (length cs))
unfolding attachments
attachments_done [] h = ([], refl, λ r. ground arith)
attachments_done (c ∷ cs) h =
    let (log, rest, balance) = attachments_done cs h.1 in
    let one = (fpga_probe c).1 ++ fpga_remove in
    (
      one ++ log,
      ground (arith, attach_done c h.0),
      λ r.
          let first = fpga_probe-fpga_remove c r h.0.0 h.0.1 h.0.2 in
          ground (arith, balance r, first, taken-append r one log, given-append r one log),
    )

driver_balanced :
    (r : Resource) (log : List Event) (n : ℕ)
    → taken r log ≡ given r log + left_enabled r n
    → let whole = (takes pci_driver ∷ []) ++ (log ++ fpga_char_main_exit) in
      taken r whole ≡ given r whole + left_enabled r n
unfolding fpga_char_main_exit
driver_balanced r log n h = ground (
  arith,
  h,
  taken-append r log (gives pci_driver ∷ []),
  given-append r log (gives pci_driver ∷ []),
)

-- Loading the module, any number of attachments in which everything succeeds, and unloading it: the
-- module's whole life ends without a fault, and gives back each resource as often as it took it,
-- but that the device was enabled once more for each attachment than it was disabled.
module_balanced :
    (cs : List ProbeCalls) (r : Resource)
    → All Succeeds cs
    → (log : List Event) × (module_life (pos 0) cs ≡ detached log)
      × (taken r log ≡ given r log + (if number r == number device_enabled then length cs else 0))
unfolding module_life
module_balanced cs r h =
    let (log, done, balance) = attachments_done cs h in
    (
      (takes pci_driver ∷ []) ++ (log ++ fpga_char_main_exit),
      ground arith,
      driver_balanced r log (length cs) (balance r),
    )
