-- ===== src/Device/Thread/Wakeups.antt =====
-- Which wake-ups of the clean-up thread are safe, and which can be lost.
use linux_pcie_dma.Common.{◌≡◌, ◌≢◌, refl, ◌⊎◌, inr, true, false, ◌&&◌, arith}
use linux_pcie_dma.Device.Thread.{
  locking, testing, entering_wait, asleep, quiet, loaded, signalling, joining, Threads,
  thread_has_lock, uninit_has_lock, must_wait, Step, Steps, none_more, then, lock, test_waits, wait,
  wake_spuriously, test_stops, test_cleans, reset_doorbell, unlock, ring, signal_bell, lock_uninit,
  stop, signal_stop, Reach, start, later,
}

-- The lock is held once at most, `stopping` is set with unloading, and the thread sleeps or is about
-- to only while a stop that it has not seen is still to be signalled.
pub record IsSound (s : Threads) : Type 0 where
  pub exclusive : thread_has_lock s.thread && uninit_has_lock s.uninit ≡ false
  pub stops : s.stopping ≡ true → (s.uninit ≡ signalling) ⊎ (s.uninit ≡ joining)
  pub stopped : (s.uninit ≡ signalling) ⊎ (s.uninit ≡ joining) → s.stopping ≡ true
  pub no_wait : s.stopping ≡ true → s.thread ≢ entering_wait
  pub no_sleep : s.uninit ≡ joining → s.thread ≢ asleep

Step-IsSound : {s t : Threads} → Step s t → IsSound s → IsSound t
Step-IsSound (lock a b e) h = ground arith
Step-IsSound (test_waits a b e) h = ground arith
Step-IsSound (wait a e) h = ground arith
Step-IsSound (wake_spuriously a e) h = ground arith
Step-IsSound (test_stops a b e) h = ground arith
Step-IsSound (test_cleans a b c e) h = ground arith
Step-IsSound (reset_doorbell a e) h = ground arith
Step-IsSound (unlock a e) h = ground arith
Step-IsSound (ring a e) h = ground arith
Step-IsSound (signal_bell a e) h = ground arith
Step-IsSound (lock_uninit a b e) h = ground arith
Step-IsSound (stop a e) h = ground arith
Step-IsSound (signal_stop a e) h = ground arith

pub Reach-IsSound : {s : Threads} → Reach s → IsSound s
Reach-IsSound start = ground arith
Reach-IsSound (later r st) = Step-IsSound st (Reach-IsSound r)

-- The unloading of the device never joins a thread that sleeps: in every reachable state in which
-- qemu_thread_join waits, the thread is awake and not about to sleep, and the stopping flag is set
-- for its next test.
pub join_awake :
    {s : Threads}
    → Reach s
    → s.uninit ≡ joining
    → (s.thread ≢ asleep) × (s.thread ≢ entering_wait) × (s.stopping ≡ true)
join_awake r j = let sound = Reach-IsSound r in ground arith

-- In every reachable state the thread and the unloading do not both hold the processing lock.
pub lock_exclusive :
    {s : Threads} → Reach s → thread_has_lock s.thread && uninit_has_lock s.uninit ≡ false
lock_exclusive r = (Reach-IsSound r).exclusive

-- While the thread sleeps, no doorbell signal is due and the device is not being unloaded, every step
-- leaves the thread asleep, but for a spurious wake-up; whether the doorbell is set plays no part.
pub stuck_asleep :
    {s t : Threads}
    → Step s t
    → s.thread ≡ asleep
    → s.bell ≡ quiet
    → s.uninit ≡ loaded
    → (t.thread ≡ asleep) ⊎ (t ≡ record s { thread = locking })
stuck_asleep (lock a b e) h q l = ground arith
stuck_asleep (test_waits a b e) h q l = ground arith
stuck_asleep (wait a e) h q l = ground arith
stuck_asleep (wake_spuriously a e) h q l = inr e
stuck_asleep (test_stops a b e) h q l = ground arith
stuck_asleep (test_cleans a b c e) h q l = ground arith
stuck_asleep (reset_doorbell a e) h q l = ground arith
stuck_asleep (unlock a e) h q l = ground arith
stuck_asleep (ring a e) h q l = ground arith
stuck_asleep (signal_bell a e) h q l = ground arith
stuck_asleep (lock_uninit a b e) h q l = ground arith
stuck_asleep (stop a e) h q l = ground arith
stuck_asleep (signal_stop a e) h q l = ground arith

abbrev missed : Threads → Threads
missed s = record s { thread = asleep; doorbell = true }

-- A doorbell can be lost. From every reachable state in which the thread is about to test and has to
-- wait, and no write to the doorbell is under way, such a write can complete so that the doorbell is
-- set while the thread sleeps, no signal is due, and the device is not being unloaded.
pub doorbell_lost :
    (s : Threads)
    → Reach s
    → s.thread ≡ testing
    → must_wait s ≡ true
    → s.bell ≡ quiet
    → (t : Threads) × Steps s t
      × (t.thread ≡ asleep)
      × (t.doorbell ≡ true)
      × (t.bell ≡ quiet)
      × (t.uninit ≡ loaded)
doorbell_lost s r now waits silent =
    let sound = Reach-IsSound r in
    let still_loaded : s.uninit ≡ loaded = ground arith in
    (
      missed s,
      then
          (then (then (then none_more (test_waits now waits refl)) (ring silent refl))
            (signal_bell refl refl))
          (wait refl (ground arith)),
      refl,
      refl,
      silent,
      still_loaded,
    )
