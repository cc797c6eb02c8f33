-- ===== src/Driver/Module/Leaks.antt =====
-- What the driver leaves behind after any number of attachments, and when it faults.
use linux_pcie_dma.Common.{
  ℕ, suc, ◌+◌, ◌≡◌, ◌↔◌, ◌⊎◌, refl, Bool, true, false, not, ◌&&◌, List, [], ◌∷◌, ◌++◌, arith, ℤ,
  pos, if◌then◌else◌, is_nonzero, is_below,
}
use linux_pcie_dma.Driver.Resources.{
  Event, takes, gives, private_struct, device_enabled, mapping, chrdev_region, device_class,
  char_device, device_node, taken, given, taken-append, given-append,
}
use linux_pcie_dma.Driver.Probe.{interrupts_ready, ProbeCalls, fpga_probe, fpga_remove}
use linux_pcie_dma.Driver.Probe.Balance.{RegionReady, InterruptsReady}
use linux_pcie_dma.Driver.Module.{Attachment, detached, faulted, attach, attachments}

-- A kernel call returns 0 or a negative error.
abbrev IsStatus : ℤ → Type 0
IsStatus error = (error ≡ pos 0) ⊎ (is_below error 0 ≡ true)

-- What the kernel documents of the calls in fpga_probe and create_char_devs.
pub record IsDocumented (c : ProbeCalls) : Type 0 where
  pub enable_device : IsStatus c.enable_device
  pub enable_device_mem : IsStatus c.enable_device_mem
  pub request_region : IsStatus c.request_region
  pub request_irq : IsStatus c.request_irq
  pub alloc_chrdev_region : IsStatus c.char_devs.alloc_chrdev_region
  pub cdev_add : IsStatus c.char_devs.cdev_add

abbrev pub has_faulted : Attachment → Bool
has_faulted (detached log) = false
has_faulted (faulted log) = true

-- A device is removed through driver data that was never set in exactly two cases: no interrupt
-- vector was allocated and the call returned 0, or the registers could not be mapped.
pub attach_faults_iff :
    (c : ProbeCalls)
    → IsDocumented c
    → (has_faulted (attach c) ≡ true) ↔ (
        (RegionReady c × (c.alloc_irq_vectors ≡ pos 0))
        ⊎ (InterruptsReady c × (c.remapped ≡ false)))
unfolding attach
attach_faults_iff c d = ground arith

-- An attachment enables the device for good, and leaks the private struct.
abbrev pub enables : ProbeCalls → Bool
enables c = c.allocated && not (is_nonzero c.enable_device)

abbrev pub leaks_struct : ProbeCalls → Bool
leaks_struct c = c.allocated && is_below (fpga_probe c).0 0

abbrev pub count_if : (ProbeCalls → Bool) → List ProbeCalls → ℕ
count_if test [] = 0
count_if test (c ∷ cs) = if test c then suc (count_if test cs) else count_if test cs

attach_leaks :
    (c : ProbeCalls) (log : List Event)
    → attach c ≡ detached log
    → (taken device_enabled log ≡ given device_enabled log + (if enables c then 1 else 0))
      × (taken private_struct log ≡ given private_struct log + (if leaks_struct c then 1 else 0))
unfolding attach
attach_leaks c log e = (ground arith, ground arith)

attachments_cons :
    (c : ProbeCalls) (cs : List ProbeCalls) (log : List Event)
    → attachments (c ∷ cs) ≡ detached log
    → (first : List Event) × (rest : List Event) × (attach c ≡ detached first)
      × (attachments cs ≡ detached rest)
      × (log ≡ first ++ rest)
unfolding attachments
attachments_cons c cs log e = parts (attach c) (attachments cs) refl refl e
  where
    parts :
        (one all : Attachment)
        → attach c ≡ one
        → attachments cs ≡ all
        → attachments (c ∷ cs) ≡ detached log
        → (first : List Event) × (rest : List Event) × (attach c ≡ detached first)
          × (attachments cs ≡ detached rest)
          × (log ≡ first ++ rest)
    parts (detached first) (detached rest) p q e = (first, rest, p, q, ground arith)
    parts (detached first) (faulted rest) p q e = absurd (ground arith)
    parts (faulted first) all p q e = absurd (ground arith)

-- However often the device is attached and detached, with whatever outcomes but a fault: each time
-- that it could be enabled it stays enabled once, and each probe that failed after its allocation
-- leaks a private struct.
pub attachments_leak :
    (cs : List ProbeCalls) (log : List Event)
    → attachments cs ≡ detached log
    → (taken device_enabled log ≡ given device_enabled log + count_if enables cs)
      × (taken private_struct log ≡ given private_struct log + count_if leaks_struct cs)
unfolding attachments
attachments_leak [] log e = (ground arith, ground arith)
attachments_leak (c ∷ cs) log e =
    let (first, rest, one, all, split) = attachments_cons c cs log e in
    let head = attach_leaks c first one in
    let tail = attachments_leak cs rest all in
    rw split (
      ground
          (arith, taken-append device_enabled first rest, given-append device_enabled first rest),
      ground
          (arith, taken-append private_struct first rest, given-append private_struct first rest),
    )

-- When class_create returns NULL after everything else went well, fpga_probe reports success with
-- no character device made, and fpga_remove takes away what was never there: the class, the device
-- and its node, and the device numbers a second time.
attach_without_class :
    (c : ProbeCalls)
    → InterruptsReady c
    → c.remapped ≡ true
    → c.char_devs.alloc_chrdev_region ≡ pos 0
    → c.char_devs.class_created ≡ false
    → (log : List Event) × (attach c ≡ detached log)
      × (given device_class log ≡ taken device_class log + 1)
      × (given char_device log ≡ taken char_device log + 1)
      × (given device_node log ≡ taken device_node log + 1)
      × (given chrdev_region log ≡ taken chrdev_region log + 1)
unfolding attach fpga_remove
attach_without_class c ready mapped region no_class = (
  interrupts_ready
      ++ (takes mapping ∷ takes chrdev_region ∷ gives chrdev_region ∷ [])
      ++ fpga_remove,
  ground arith,
  refl,
  refl,
  refl,
  refl,
)
