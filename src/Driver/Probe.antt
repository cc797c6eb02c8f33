-- ===== src/Driver/Probe.antt =====
-- The life of the PCI device in the kernel module: fpga_probe and fpga_remove of
-- fpga-char/fpga_char_main.c:36-203, create_char_devs and destroy_char_devs of
-- fpga-char/chardev.c:49-121. The outcomes of the kernel's calls are given; each function returns
-- its error and the log of what it takes and gives back. Calls whose outcome is not looked at and
-- that take nothing (the DMA mask, bus mastering, reading the configuration and the batch factor,
-- the driver data) are left out.
pub mod Balance
use linux_pcie_dma.Common.{
  ℕ, Bool, true, false, ◌&&◌, not, List, [], ◌∷◌, ◌++◌, ◌==◌, if◌then◌else◌, ℤ, pos, is_nonzero,
  is_below, minus_enomem, minus_enodev,
}
use linux_pcie_dma.Driver.Resources.{
  Event, takes, gives, private_struct, device_enabled, memory_region, irq_vectors, irq_handler,
  mapping, chrdev_region, device_class, char_device, device_node,
}

-- NUM_IRQ_VECTORS
abbrev pub num_irq_vectors : ℕ
num_irq_vectors = 1

-- The outcomes of the calls in create_char_devs. class_create gives NULL, for which the code tests,
-- or a class. The error pointer that it may give in place of NULL is not among the outcomes: the
-- code would write through it. device_create, whose outcome is not looked at, makes the node.
pub record CharDevCalls : Type 0 where
  pub alloc_chrdev_region : ℤ
  pub class_created : Bool
  pub cdev_add : ℤ

-- The outcomes of the calls in fpga_probe.
pub record ProbeCalls : Type 0 where
  pub allocated : Bool
  pub enable_device : ℤ
  pub enable_device_mem : ℤ
  pub request_region : ℤ
  pub alloc_irq_vectors : ℤ
  pub request_irq : ℤ
  pub mmio_start : ℕ
  pub mmio_len : ℕ
  pub remapped : Bool
  pub char_devs : CharDevCalls

abbrev pub Outcome : Type 0
Outcome = ℤ × List Event

-- The label could_not_alloc_chr_region, and the one above it.
abbrev pub could_not_alloc_chr_region : ℤ → List Event → Outcome
could_not_alloc_chr_region error log = (error, log ++ (gives chrdev_region ∷ []))

abbrev pub could_not_add_cdev : ℤ → List Event → Outcome
could_not_add_cdev error log =
    could_not_alloc_chr_region error (log ++ (gives char_device ∷ gives device_class ∷ []))

unfoldable pub create_char_devs : CharDevCalls → Outcome
create_char_devs c =
    if is_nonzero c.alloc_chrdev_region
    then could_not_alloc_chr_region c.alloc_chrdev_region []
    else if not c.class_created
    then could_not_alloc_chr_region c.alloc_chrdev_region (takes chrdev_region ∷ [])
    else if is_nonzero c.cdev_add
    then could_not_add_cdev c.cdev_add (takes chrdev_region ∷ takes device_class ∷ [])
    else (
      pos 0,
      takes chrdev_region ∷ takes device_class ∷ takes char_device ∷ takes device_node ∷ [],
    )

unfoldable pub destroy_char_devs : List Event
destroy_char_devs =
    gives device_node ∷ gives char_device ∷ gives device_class ∷ gives chrdev_region ∷ []

-- The labels at the end of fpga_probe, from the last upwards; each falls through to the one before.
abbrev pub could_not_enable_device : ℤ → List Event → Outcome
could_not_enable_device error log = (error, log)

abbrev pub could_not_request_region : ℤ → List Event → Outcome
could_not_request_region error log =
    could_not_enable_device error (log ++ (gives device_enabled ∷ []))

abbrev pub could_not_alloc_irq_vectors : ℤ → List Event → Outcome
could_not_alloc_irq_vectors error log =
    could_not_request_region error (log ++ (gives irq_handler ∷ gives irq_vectors ∷ []))

abbrev pub ioremap_failed : ℤ → List Event → Outcome
ioremap_failed error log = could_not_alloc_irq_vectors error (log ++ (gives memory_region ∷ []))

abbrev pub char_devs_failed : ℤ → List Event → Outcome
char_devs_failed error log = ioremap_failed error (log ++ (gives mapping ∷ []))

-- What has been taken when request_irq has succeeded.
abbrev pub interrupts_ready : List Event
interrupts_ready =
    takes private_struct
    ∷ takes device_enabled
    ∷ takes device_enabled
    ∷ takes memory_region
    ∷ takes irq_vectors
    ∷ takes irq_handler
    ∷ []

unfoldable pub fpga_probe : ProbeCalls → Outcome
unfolding create_char_devs
fpga_probe c =
    if not c.allocated
    then (minus_enomem, [])
    else if is_nonzero c.enable_device
    then could_not_enable_device c.enable_device (takes private_struct ∷ [])
    else if is_nonzero c.enable_device_mem
    then could_not_enable_device c.enable_device_mem
        (takes private_struct ∷ takes device_enabled ∷ [])
    else if is_nonzero c.request_region
    then could_not_request_region c.request_region
        (takes private_struct ∷ takes device_enabled ∷ takes device_enabled ∷ [])
    else if is_below c.alloc_irq_vectors num_irq_vectors
    then could_not_request_region c.alloc_irq_vectors (
        takes private_struct
        ∷ takes device_enabled
        ∷ takes device_enabled
        ∷ takes memory_region
        ∷ [])
    else if is_below c.request_irq 0
    then could_not_alloc_irq_vectors c.request_irq (
        takes private_struct
        ∷ takes device_enabled
        ∷ takes device_enabled
        ∷ takes memory_region
        ∷ takes irq_vectors
        ∷ [])
    else if (c.mmio_start == 0) && (c.mmio_len == 0)
    then ioremap_failed minus_enodev interrupts_ready
    else if not c.remapped
    then ioremap_failed c.request_irq interrupts_ready
    else (let (error, log) = create_char_devs c.char_devs in
        if is_nonzero error
        then char_devs_failed error (interrupts_ready ++ (takes mapping ∷ log))
        else (pos 0, interrupts_ready ++ (takes mapping ∷ log)))

unfoldable pub fpga_remove : List Event
unfolding destroy_char_devs
fpga_remove =
    destroy_char_devs
    ++ (gives mapping
        ∷ gives private_struct
        ∷ gives irq_handler
        ∷ gives irq_vectors
        ∷ gives memory_region
        ∷ gives device_enabled
        ∷ [])
