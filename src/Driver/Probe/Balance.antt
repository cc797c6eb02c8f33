-- ===== src/Driver/Probe/Balance.antt =====
-- What fpga_probe reports, and what it and fpga_remove leave taken.
use linux_pcie_dma.Common.{
  ◌+◌, ◌≡◌, ◌≢◌, ◌↔◌, ◌⊎◌, refl, true, false, List, [], ◌∷◌, ◌++◌, arith, pos, is_below, ◌==◌,
  if◌then◌else◌,
}
use linux_pcie_dma.Driver.Resources.{
  Resource, Event, takes, private_struct, device_enabled, memory_region, irq_handler, mapping,
  chrdev_region, device_class, char_device, device_node, number, taken, given,
}
use linux_pcie_dma.Driver.Probe.{
  CharDevCalls, ProbeCalls, interrupts_ready, fpga_probe, fpga_remove, num_irq_vectors,
}

-- Every call that create_char_devs depends on succeeded.
abbrev pub CharDevsMade : CharDevCalls → Type 0
CharDevsMade c = (c.alloc_chrdev_region ≡ pos 0) × (c.class_created ≡ true) × (c.cdev_add ≡ pos 0)

-- So did every call of fpga_probe before the interrupt vectors, and then up to the mapping.
abbrev pub RegionReady : ProbeCalls → Type 0
RegionReady c =
    (c.allocated ≡ true)
    × (c.enable_device ≡ pos 0)
    × (c.enable_device_mem ≡ pos 0)
    × (c.request_region ≡ pos 0)

abbrev pub InterruptsReady : ProbeCalls → Type 0
InterruptsReady c =
    RegionReady c
    × (is_below c.alloc_irq_vectors num_irq_vectors ≡ false)
    × (is_below c.request_irq 0 ≡ false)
    × ((c.mmio_start ≢ 0) ⊎ (c.mmio_len ≢ 0))

-- fpga_probe reports success when everything succeeded, and in exactly three cases more: when no
-- interrupt vector was allocated and the call returned 0, when the registers could not be mapped
-- after request_irq returned 0, and when class_create returned NULL.
pub fpga_probe_success_iff :
    (c : ProbeCalls)
    → ((fpga_probe c).0 ≡ pos 0) ↔ (
        (InterruptsReady c × (c.remapped ≡ true) × CharDevsMade c.char_devs)
        ⊎ (RegionReady c × (c.alloc_irq_vectors ≡ pos 0))
        ⊎ (InterruptsReady c × (c.remapped ≡ false) × (c.request_irq ≡ pos 0))
        ⊎ (InterruptsReady c
            × (c.remapped ≡ true)
            × (c.char_devs.alloc_chrdev_region ≡ pos 0)
            × (c.char_devs.class_created ≡ false)))
unfolding fpga_probe
fpga_probe_success_iff c = ground arith

abbrev pub full_log : List Event
full_log =
    interrupts_ready
    ++ (takes mapping
        ∷ takes chrdev_region
        ∷ takes device_class
        ∷ takes char_device
        ∷ takes device_node
        ∷ [])

pub fpga_probe_done :
    (c : ProbeCalls)
    → InterruptsReady c
    → c.remapped ≡ true
    → CharDevsMade c.char_devs
    → (fpga_probe c).1 ≡ full_log
unfolding fpga_probe
fpga_probe_done c i m d = ground arith

full_log-fpga_remove :
    (r : Resource)
    → taken r (full_log ++ fpga_remove)
      ≡ given r (full_log ++ fpga_remove) + (if number r == number device_enabled then 1 else 0)
unfolding fpga_remove
full_log-fpga_remove private_struct = refl
full_log-fpga_remove _ = refl

-- When everything succeeds, removing the device gives back what probing it took, each resource once,
-- but for one of the two times that the device was enabled.
pub fpga_probe-fpga_remove :
    (c : ProbeCalls) (r : Resource)
    → InterruptsReady c
    → c.remapped ≡ true
    → CharDevsMade c.char_devs
    → taken r ((fpga_probe c).1 ++ fpga_remove)
      ≡ given r ((fpga_probe c).1 ++ fpga_remove)
        + (if number r == number device_enabled then 1 else 0)
fpga_probe-fpga_remove c r i m d = rw (fpga_probe_done c i m d) (full_log-fpga_remove r)

-- A probe that fails after it has the memory region leaks. The private struct is never freed, and
-- the device stays enabled once. The memory region is kept exactly when the interrupt vectors or
-- the handler could not be had; in the latter case a handler is given back that was never taken.
fpga_probe_leaks :
    (c : ProbeCalls)
    → RegionReady c
    → (fpga_probe c).0 ≢ pos 0
    → let log = (fpga_probe c).1 in
      (taken private_struct log ≡ given private_struct log + 1)
      × (taken device_enabled log ≡ given device_enabled log + 1)
      × (taken memory_region log
          ≡ given memory_region log
            + (if is_below c.alloc_irq_vectors num_irq_vectors
                then 1
                else if is_below c.request_irq 0
                then 1
                else 0))
      × (given irq_handler log
          ≡ taken irq_handler log
            + (if is_below c.alloc_irq_vectors num_irq_vectors
                then 0
                else if is_below c.request_irq 0
                then 1
                else 0))
unfolding fpga_probe
fpga_probe_leaks c ready f = (ground arith, ground arith, ground arith, ground arith)
