-- ===== src/Driver.antt =====
-- The kernel module of fpga-char/: the device that it drives, reached over a bus of 32-bit
-- accesses, and the results that it hands to the kernel. `Chardev` is the character device,
-- `Irq` the interrupt handler, `Probe` the life of the PCI device.
pub mod Chardev
pub mod Irq
pub mod Resources
pub mod Ids
pub mod Probe
pub mod Module
use linux_pcie_dma.Common.{ℕ, List}

-- Where BAR 0 is mapped (`dev_mem`), at offset 0: readl and ioread32, and iowrite32 with its value
-- first. `S` is all that an access can read or change.
pub record Mmio (S : Type 0) : Type 0 where
  pub ioread32 : S → ℕ → ℕ × S
  pub iowrite32 : ℕ → ℕ → S → S

-- The error codes that the module returns, negated, to the kernel.
pub data Errno : Type 0 where
  enomem eio efault enotty enodev : Errno

-- What a file operation returns: a count (or 0), or an error.
pub data Reply : Type 0 where
  returns : ℕ → Reply
  fails : Errno → Reply
