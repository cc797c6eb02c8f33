-- ===== src/Device/Thread.antt =====
-- The clean-up thread, the guest's doorbell and the unloading of the device as steps that
-- interleave: qemu-fpga-char/virtine_fpga.c:274-280 (the doorbell, rung without the processing
-- lock), 327-347 (the wait) and 476-488 (virtine_fpga_uninit).
pub mod Wakeups
use linux_pcie_dma.Common.{ℕ, suc, Bool, true, false, not, ◌&&◌, ◌≡◌}

-- Where the clean-up thread stands.
pub data ThreadPc : Type 0 where
  -- before qemu_mutex_lock, on its way to the loop or back from the wait
  locking : ThreadPc
  -- holds the lock, about to test the doorbell and the stopping flag
  testing : ThreadPc
  -- holds the lock, about to call qemu_cond_wait, which releases it and sleeps at once
  entering_wait : ThreadPc
  -- sleeps in qemu_cond_wait
  asleep : ThreadPc
  -- holds the lock, about to reset the doorbell
  beginning : ThreadPc
  -- holds the lock and works on a batch
  cleaning : ThreadPc
  -- has left the loop
  finished : ThreadPc

-- Where the guest's write to DOORBELL_REG stands: it sets the flag, then signals.
pub data BellPc : Type 0 where
  quiet : BellPc
  rung : BellPc

-- Where virtine_fpga_uninit stands.
pub data UninitPc : Type 0 where
  loaded : UninitPc
  -- holds the lock, about to set `stopping`
  unloading : UninitPc
  -- has released the lock, about to signal
  signalling : UninitPc
  -- waits in qemu_thread_join
  joining : UninitPc

pub record Threads : Type 0 where
  pub thread : ThreadPc
  pub bell : BellPc
  pub uninit : UninitPc
  pub doorbell : Bool
  pub stopping : Bool

-- Who holds the processing lock follows from where they stand.
abbrev pub thread_has_lock : ThreadPc → Bool
thread_has_lock testing = true
thread_has_lock entering_wait = true
thread_has_lock beginning = true
thread_has_lock cleaning = true
thread_has_lock _ = false

abbrev pub uninit_has_lock : UninitPc → Bool
uninit_has_lock unloading = true
uninit_has_lock _ = false

-- A signal wakes the thread if it sleeps, and is lost otherwise.
abbrev pub woken : ThreadPc → ThreadPc
woken asleep = locking
woken locking = locking
woken testing = testing
woken entering_wait = entering_wait
woken beginning = beginning
woken cleaning = cleaning
woken finished = finished

abbrev pub must_wait : Threads → Bool
must_wait s = not s.doorbell && not s.stopping

-- One step. The lock is free for the thread while unloading does not hold it, and conversely.
pub data Step (s t : Threads) : Type 0 where
  lock :
      s.thread ≡ locking
      → uninit_has_lock s.uninit ≡ false
      → t ≡ record s { thread = testing }
      → Step s t
  test_waits :
      s.thread ≡ testing → must_wait s ≡ true → t ≡ record s { thread = entering_wait } → Step s t
  wait : s.thread ≡ entering_wait → t ≡ record s { thread = asleep } → Step s t
  -- a condition variable may wake its waiter with no signal
  wake_spuriously : s.thread ≡ asleep → t ≡ record s { thread = locking } → Step s t
  test_stops :
      s.thread ≡ testing → s.stopping ≡ true → t ≡ record s { thread = finished } → Step s t
  test_cleans :
      s.thread ≡ testing
      → must_wait s ≡ false
      → s.stopping ≡ false
      → t ≡ record s { thread = beginning }
      → Step s t
  reset_doorbell :
      s.thread ≡ beginning → t ≡ record s { thread = cleaning; doorbell = false } → Step s t
  unlock : s.thread ≡ cleaning → t ≡ record s { thread = locking } → Step s t
  ring : s.bell ≡ quiet → t ≡ record s { bell = rung; doorbell = true } → Step s t
  signal_bell : s.bell ≡ rung → t ≡ record s { bell = quiet; thread = woken s.thread } → Step s t
  lock_uninit :
      s.uninit ≡ loaded
      → thread_has_lock s.thread ≡ false
      → t ≡ record s { uninit = unloading }
      → Step s t
  stop : s.uninit ≡ unloading → t ≡ record s { uninit = signalling; stopping = true } → Step s t
  signal_stop :
      s.uninit ≡ signalling → t ≡ record s { uninit = joining; thread = woken s.thread } → Step s t

-- Any number of steps.
pub data Steps (s : Threads) : Threads → Type 0 where
  none_more : Steps s s
  then : {t u : Threads} → Steps s t → Step t u → Steps s u

-- As virtine_fpga_realize leaves it.
abbrev pub started : Threads
started = record {
  thread = locking;
  bell = quiet;
  uninit = loaded;
  doorbell = false;
  stopping = false;
}

pub data Reach : Threads → Type 0 where
  start : Reach started
  later : {s t : Threads} → Reach s → Step s t → Reach t
