-- ===== src/Device/Effects.antt =====
-- What the device's code asks of QEMU, in the order of the calls, and views of such a log.
use linux_pcie_dma.Common.{ℕ, suc, ◌+◌, ◌≡◌, refl, ap, List, [], ◌∷◌, ◌++◌, arith}

pub data Effect : Type 0 where
  -- pci_dma_write(&fpga->pdev, address, source, size)
  pci_dma_write : (address source size : ℕ) → Effect
  -- msi_notify(&fpga->pdev, vector)
  msi_notify : (vector : ℕ) → Effect
  -- qemu_cond_signal(&fpga->processing_condition)
  cond_signal : Effect
  -- qemu_thread_create(&fpga->processing_thread, ...)
  thread_create : Effect
  -- *address = value, for memory of the QEMU process
  host_store : (address value : ℕ) → Effect

-- The addresses that DMA writes went to, each with the source and the size copied.
abbrev pub dma_writes : List Effect → List (ℕ × ℕ × ℕ)
dma_writes [] = []
dma_writes (pci_dma_write a s n ∷ es) = (a, s, n) ∷ dma_writes es
dma_writes (msi_notify _ ∷ es) = dma_writes es
dma_writes (cond_signal ∷ es) = dma_writes es
dma_writes (thread_create ∷ es) = dma_writes es
dma_writes (host_store _ _ ∷ es) = dma_writes es

-- The stores into memory of the QEMU process, each an address with the value stored.
abbrev pub host_stores : List Effect → List (ℕ × ℕ)
host_stores [] = []
host_stores (host_store a v ∷ es) = (a, v) ∷ host_stores es
host_stores (pci_dma_write _ _ _ ∷ es) = host_stores es
host_stores (msi_notify _ ∷ es) = host_stores es
host_stores (cond_signal ∷ es) = host_stores es
host_stores (thread_create ∷ es) = host_stores es

-- The number of threads created.
abbrev pub num_threads : List Effect → ℕ
num_threads [] = 0
num_threads (thread_create ∷ es) = suc (num_threads es)
num_threads (host_store _ _ ∷ es) = num_threads es
num_threads (pci_dma_write _ _ _ ∷ es) = num_threads es
num_threads (msi_notify _ ∷ es) = num_threads es
num_threads (cond_signal ∷ es) = num_threads es

-- The number of interrupts raised.
abbrev pub interrupts : List Effect → ℕ
interrupts [] = 0
interrupts (msi_notify _ ∷ es) = suc (interrupts es)
interrupts (pci_dma_write _ _ _ ∷ es) = interrupts es
interrupts (cond_signal ∷ es) = interrupts es
interrupts (thread_create ∷ es) = interrupts es
interrupts (host_store _ _ ∷ es) = interrupts es

pub dma_writes-append :
    (es fs : List Effect) → dma_writes (es ++ fs) ≡ dma_writes es ++ dma_writes fs
dma_writes-append [] fs = refl
dma_writes-append (pci_dma_write a s n ∷ es) fs = ap (λ r. (a, s, n) ∷ r) (dma_writes-append es fs)
dma_writes-append (msi_notify _ ∷ es) fs = dma_writes-append es fs
dma_writes-append (cond_signal ∷ es) fs = dma_writes-append es fs
dma_writes-append (thread_create ∷ es) fs = dma_writes-append es fs
dma_writes-append (host_store _ _ ∷ es) fs = dma_writes-append es fs

pub interrupts-append :
    (es fs : List Effect) → interrupts (es ++ fs) ≡ interrupts es + interrupts fs
interrupts-append [] fs = omega arith
interrupts-append (pci_dma_write a s n ∷ es) fs = interrupts-append es fs
interrupts-append (msi_notify _ ∷ es) fs = omega (arith, interrupts-append es fs)
interrupts-append (cond_signal ∷ es) fs = interrupts-append es fs
interrupts-append (thread_create ∷ es) fs = interrupts-append es fs
interrupts-append (host_store _ _ ∷ es) fs = interrupts-append es fs

pub host_stores-append :
    (es fs : List Effect) → host_stores (es ++ fs) ≡ host_stores es ++ host_stores fs
host_stores-append [] fs = refl
host_stores-append (host_store a v ∷ es) fs = ap (λ r. (a, v) ∷ r) (host_stores-append es fs)
host_stores-append (pci_dma_write _ _ _ ∷ es) fs = host_stores-append es fs
host_stores-append (msi_notify _ ∷ es) fs = host_stores-append es fs
host_stores-append (cond_signal ∷ es) fs = host_stores-append es fs
host_stores-append (thread_create ∷ es) fs = host_stores-append es fs

-- How often the condition variable was signalled.
abbrev pub num_signals : List Effect → ℕ
num_signals [] = 0
num_signals (cond_signal ∷ es) = suc (num_signals es)
num_signals (host_store _ _ ∷ es) = num_signals es
num_signals (pci_dma_write _ _ _ ∷ es) = num_signals es
num_signals (msi_notify _ ∷ es) = num_signals es
num_signals (thread_create ∷ es) = num_signals es

pub num_signals-append :
    (es fs : List Effect) → num_signals (es ++ fs) ≡ num_signals es + num_signals fs
num_signals-append [] fs = omega arith
num_signals-append (cond_signal ∷ es) fs = omega (arith, num_signals-append es fs)
num_signals-append (host_store _ _ ∷ es) fs = num_signals-append es fs
num_signals-append (pci_dma_write _ _ _ ∷ es) fs = num_signals-append es fs
num_signals-append (msi_notify _ ∷ es) fs = num_signals-append es fs
num_signals-append (thread_create ∷ es) fs = num_signals-append es fs
