-- ===== src/Driver/Module.antt =====
-- The kernel module over its whole life: every time that the device is attached to the driver,
-- fpga_probe runs, and fpga_remove if the probe reported success, fpga-char/fpga_char_main.c:36-203.
-- The kernel hands a device to fpga_remove exactly if its probe returned no negative error, and keeps
-- no driver data for a device that has no driver.
pub mod Leaks
pub mod Windows
pub mod Life
use linux_pcie_dma.Common.{
  ℤ, Bool, true, false, not, ◌&&◌, ◌||◌, List, [], ◌∷◌, ◌++◌, ◌==◌, if◌then◌else◌, is_nonzero,
  is_below,
}
use linux_pcie_dma.Driver.Resources.{Event, takes, gives, pci_driver}
use linux_pcie_dma.Driver.Probe.{
  ProbeCalls, create_char_devs, destroy_char_devs, num_irq_vectors, fpga_probe, fpga_remove,
}

-- What is left of an attachment: its log, and whether fpga_remove went on to its end or read the
-- mapping of the registers through driver data that was never set.
pub data Attachment : Type 0 where
  detached : List Event → Attachment
  faulted : List Event → Attachment

-- Whether fpga_probe comes to pci_set_drvdata: no test on the way jumps to a label.
abbrev pub sets_drvdata : ProbeCalls → Bool
sets_drvdata c =
    c.allocated
    && not (is_nonzero c.enable_device)
    && not (is_nonzero c.enable_device_mem)
    && not (is_nonzero c.request_region)
    && not (is_below c.alloc_irq_vectors num_irq_vectors)
    && not (is_below c.request_irq 0)
    && not ((c.mmio_start == 0) && (c.mmio_len == 0))
    && c.remapped
    && not (is_nonzero (create_char_devs c.char_devs).0)

-- fpga_remove, given whether the driver data is set.
unfoldable pub remove_attached : Bool → List Event → Attachment
unfolding fpga_remove destroy_char_devs
remove_attached true log = detached (log ++ fpga_remove)
remove_attached false log = faulted (log ++ destroy_char_devs)

unfoldable pub attach : ProbeCalls → Attachment
unfolding fpga_probe remove_attached create_char_devs
attach c =
    let (error, log) = fpga_probe c in
    if is_below error 0 then detached log else remove_attached (sets_drvdata c) log

-- One attachment after the other; a fault ends the module's life.
unfoldable pub attachments : List ProbeCalls → Attachment
attachments [] = detached []
attachments (c ∷ cs) = elim (attach c) [
  | faulted log ↦ faulted log
  | detached log ↦ elim (attachments cs) [
    | faulted rest ↦ faulted (log ++ rest)
    | detached rest ↦ detached (log ++ rest)
  ]
]

-- The module's init and exit, lines 239-252; what pci_register_driver answers is given.
unfoldable pub fpga_char_main_init : (pci_register_driver : ℤ) → ℤ × List Event
fpga_char_main_init pci_register_driver =
    (pci_register_driver, if is_below pci_register_driver 0 then [] else takes pci_driver ∷ [])

unfoldable pub fpga_char_main_exit : List Event
fpga_char_main_exit = gives pci_driver ∷ []

-- The module is loaded, has its attachments if that succeeded, and is unloaded.
unfoldable pub module_life : (pci_register_driver : ℤ) → List ProbeCalls → Attachment
unfolding fpga_char_main_init fpga_char_main_exit
module_life pci_register_driver cs =
    let (error, log) = fpga_char_main_init pci_register_driver in
    if is_below error 0 then detached log else (elim (attachments cs) [
      | faulted rest ↦ faulted (log ++ rest)
      | detached rest ↦ detached (log ++ (rest ++ fpga_char_main_exit))
    ])
