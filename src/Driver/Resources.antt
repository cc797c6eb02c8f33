-- ===== src/Driver/Resources.antt =====
-- What the kernel module takes from the kernel and gives back, as a log.
use linux_pcie_dma.Common.{ℕ, suc, ◌+◌, ◌≡◌, List, [], ◌∷◌, ◌++◌, ◌==◌, if◌then◌else◌, arith}

pub data Resource : Type 0 where
  -- kzalloc / kfree of struct fpga_device
  private_struct : Resource
  -- pci_enable_device and pci_enable_device_mem / pci_disable_device
  device_enabled : Resource
  -- pci_request_region / pci_release_region
  memory_region : Resource
  -- pci_alloc_irq_vectors / pci_free_irq_vectors
  irq_vectors : Resource
  -- request_irq / free_irq
  irq_handler : Resource
  -- ioremap_uc / iounmap
  mapping : Resource
  -- alloc_chrdev_region / unregister_chrdev_region
  chrdev_region : Resource
  -- class_create / class_destroy
  device_class : Resource
  -- cdev_add / cdev_del
  char_device : Resource
  -- device_create / device_destroy
  device_node : Resource
  -- pci_register_driver / pci_unregister_driver
  pci_driver : Resource

-- A taking call is logged when it succeeds, a giving call always.
pub data Event : Type 0 where
  takes gives : Resource → Event

abbrev pub number : Resource → ℕ
number private_struct = 0
number device_enabled = 1
number memory_region = 2
number irq_vectors = 3
number irq_handler = 4
number mapping = 5
number chrdev_region = 6
number device_class = 7
number char_device = 8
number device_node = 9
number pci_driver = 10

-- How often a resource was taken, and given back.
abbrev pub taken : Resource → List Event → ℕ
taken r [] = 0
taken r (takes q ∷ es) = if number r == number q then suc (taken r es) else taken r es
taken r (gives q ∷ es) = taken r es

abbrev pub given : Resource → List Event → ℕ
given r [] = 0
given r (takes q ∷ es) = given r es
given r (gives q ∷ es) = if number r == number q then suc (given r es) else given r es

pub taken-append :
    (r : Resource) (es fs : List Event) → taken r (es ++ fs) ≡ taken r es + taken r fs
taken-append r [] fs = omega arith
taken-append r (takes q ∷ es) fs = ground (arith, taken-append r es fs)
taken-append r (gives q ∷ es) fs = taken-append r es fs

pub given-append :
    (r : Resource) (es fs : List Event) → given r (es ++ fs) ≡ given r es + given r fs
given-append r [] fs = omega arith
given-append r (takes q ∷ es) fs = given-append r es fs
given-append r (gives q ∷ es) fs = ground (arith, given-append r es fs)
