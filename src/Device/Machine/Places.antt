-- ===== src/Device/Machine/Places.antt =====
-- Where the threads of the device at work stand, qemu-fpga-char/virtine_fpga.c: the clean-up thread
-- (327-397), the guest in a handler (127-310), the unloading (476-497); and who holds which lock.
use linux_pcie_dma.Common.{ℕ, Bool, true, false}

-- Where the clean-up thread stands, with the virtine in its hands.
pub data CleanerPc : Type 0 where
  -- before qemu_mutex_lock, on its way to the loop or back from the wait
  locking : CleanerPc
  -- from here to `unlocking` it holds the processing lock, but for `asleep`
  testing entering_wait asleep : CleanerPc
  -- about to set `is_card_processing`, then to reset the doorbell
  beginning resetting : CleanerPc
  -- about to call pop_head
  popping : CleanerPc
  -- about to copy the snapshot, then to count the virtine and insert it into the completed queue
  holding copied : (virtine : ℕ) → CleanerPc
  -- about to reset `is_card_processing`, then to compare the counter
  moved deciding : CleanerPc
  -- about to take the iothread lock; holds it and raises the interrupt; about to release it
  notifying raising raised : CleanerPc
  -- about to reset the counter
  recounting : CleanerPc
  unlocking finished : CleanerPc

-- One access of the guest to BAR 0.
pub data Access : Type 0 where
  reads : (addr : ℕ) → Access
  writes : (addr val : ℕ) → Access

-- Where the guest stands: outside the device, or in a handler with the iothread lock held.
pub data GuestPc : Type 0 where
  outside : GuestPc
  inside : Access → GuestPc
  -- has set the doorbell, about to signal
  signalling_bell : GuestPc
  returning : GuestPc

-- Where the unloading stands; from `begun` on it holds the iothread lock, which its caller releases
-- after the end.
pub data UnloadPc : Type 0 where
  plugged begun unloading signalling joining : UnloadPc
  -- about to destroy the condition, then the processing lock, then to let go of the registers
  joined condition_destroyed lock_destroyed unloaded : UnloadPc

-- Who holds the two locks follows from where they stand.
abbrev pub cleaner_has_lock : CleanerPc → Bool
cleaner_has_lock locking = false
cleaner_has_lock asleep = false
cleaner_has_lock finished = false
cleaner_has_lock _ = true

abbrev pub unload_has_lock : UnloadPc → Bool
unload_has_lock unloading = true
unload_has_lock _ = false

abbrev pub cleaner_has_iothread : CleanerPc → Bool
cleaner_has_iothread raising = true
cleaner_has_iothread raised = true
cleaner_has_iothread _ = false

abbrev pub guest_has_iothread : GuestPc → Bool
guest_has_iothread outside = false
guest_has_iothread _ = true

abbrev pub unload_has_iothread : UnloadPc → Bool
unload_has_iothread plugged = false
unload_has_iothread _ = true

-- A signal wakes the thread if it sleeps, and is lost otherwise.
abbrev pub woken : CleanerPc → CleanerPc
woken asleep = locking
woken pc = pc
