-- ===== src/Tests/Module.antt =====
-- Attachments of the character device's module, and the theorems on its whole life at them.
use linux_pcie_dma.Common.{
  ℕ, inr, ◌≤◌, ◌+◌, ◌≡◌, ◌↔◌, ◌⊎◌, inl, refl, Bool, true, false, ◌∷◌, [], List, arith, pos, negsuc,
}
use linux_pcie_dma.Driver.Resources.{Event, device_enabled, private_struct, taken, given}
use linux_pcie_dma.Driver.Probe.{ProbeCalls}
use linux_pcie_dma.Driver.Probe.Balance.{InterruptsReady, RegionReady}
use linux_pcie_dma.Driver.Chardev.Files.{CharDev, fpga_char_open}
use linux_pcie_dma.Driver.Chardev.History.{loaded}
use linux_pcie_dma.Driver.Module.{detached, attach, attachments}
use linux_pcie_dma.Driver.Module.Leaks.{
  IsDocumented, has_faulted, attach_faults_iff, attachments_leak,
}
use linux_pcie_dma.Driver.Module.Windows.{is_exposed, has_live_file, moment, handler_exposed_iff}

-- Every call succeeds.
abbrev smooth : ProbeCalls
smooth = record {
  allocated = true;
  enable_device = pos 0;
  enable_device_mem = pos 0;
  request_region = pos 0;
  alloc_irq_vectors = pos 1;
  request_irq = pos 0;
  mmio_start = 0xfe000000;
  mmio_len = 0x40000000;
  remapped = true;
  char_devs = record { alloc_chrdev_region = pos 0; class_created = true; cdev_add = pos 0 };
}

smooth-InterruptsReady : InterruptsReady smooth
smooth-InterruptsReady = ((refl, refl, refl, refl), refl, refl, inl (omega arith))

-- The registers cannot be mapped.
abbrev unmapped : ProbeCalls
unmapped = record smooth { remapped = false }

unmapped-IsDocumented : IsDocumented unmapped
unmapped-IsDocumented = record {
  enable_device = inl refl;
  enable_device_mem = inl refl;
  request_region = inl refl;
  request_irq = inl refl;
  alloc_chrdev_region = inl refl;
  cdev_add = inl refl;
}

attach_faults_example : (has_faulted (attach unmapped) ≡ true) ↔ (
    (RegionReady unmapped × (pos 1 ≡ pos 0))
    ⊎ (InterruptsReady unmapped × (◌≡◌ {A = Bool} false false)))
attach_faults_example = attach_faults_iff unmapped unmapped-IsDocumented

unmapped_faults : has_faulted (attach unmapped) ≡ true
unfolding attach
unmapped_faults = refl

-- The interrupt is busy.
abbrev busy : ProbeCalls
busy = record smooth { request_irq = negsuc 15 }

-- A full attachment, then one that fails.
abbrev two_attached : List Event
two_attached = elim (attachments (smooth ∷ busy ∷ [])) [ detached log ↦ log | _ ↦ [] ]

attachments_leak_example :
    (taken device_enabled two_attached ≡ given device_enabled two_attached + 2)
    × (taken private_struct two_attached ≡ given private_struct two_attached + 1)
unfolding attachments attach
attachments_leak_example = attachments_leak (smooth ∷ busy ∷ []) two_attached refl

-- After unregister_chrdev_region, before iounmap, while a file is open.
abbrev with_file : CharDev
with_file = (fpga_char_open true 3 0 loaded).1

handler_exposed_example : is_exposed with_file (moment smooth 15) ≡ true ↔ (
    (◌≡◌ {A = ℕ} 15 6)
    ⊎ (◌≡◌ {A = ℕ} 15 16)
    ⊎ (◌≡◌ {A = ℕ} 15 17)
    ⊎ ((6 ≤ 15) × (15 ≤ 17) × (has_live_file with_file ≡ false)))
handler_exposed_example =
    handler_exposed_iff smooth with_file 15 smooth-InterruptsReady refl (refl, refl, refl)

-- Before any file is with_file.
unopened_exposed : is_exposed loaded (moment smooth 11) ≡ true
unopened_exposed =
    (handler_exposed_iff smooth loaded 11 smooth-InterruptsReady refl (refl, refl, refl)).1
      (inr (inr (inr (omega arith, omega arith, refl))))
