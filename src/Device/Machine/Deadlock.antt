-- ===== src/Device/Machine/Deadlock.antt =====
-- The two locks of the device at work, and how its threads can block one another.
use linux_pcie_dma.Common.{◌≡◌, refl, true, false, ◌&&◌, ◌||◌, arith}
use linux_pcie_dma.Registers.{cq_head_offset_reg}
use linux_pcie_dma.Device.{DeviceState}
use linux_pcie_dma.Device.Machine.{
  CleanerPc, asleep, notifying, finished, outside, inside, plugged, begun, unloaded, Machine,
  cleaner_has_lock, unload_has_lock, cleaner_has_iothread, guest_has_iothread, unload_has_iothread,
  woken, needs_lock, Access, reads, CleanerStep, lock, test_waits, wait, wake_spuriously,
  test_stops, test_cleans, begin, reset_doorbell, pop, copy, move, settle, decide, lock_iothread,
  raise, unlock_iothread, recount, unlock, dispatch, access, signal_bell, return, begin_unload,
  lock_uninit, stop, signal_stop, join, destroy_condition, destroy_lock, unref, Step, by_cleaner,
  by_guest, by_unload, Reach, start, later,
}

-- Each lock is held once at most.
pub record IsExclusive (m : Machine) : Type 0 where
  pub lock : cleaner_has_lock m.cleaner && unload_has_lock m.unload ≡ false
  pub cleaner_guest : cleaner_has_iothread m.cleaner && guest_has_iothread m.guest ≡ false
  pub cleaner_unload : cleaner_has_iothread m.cleaner && unload_has_iothread m.unload ≡ false
  pub guest_unload : guest_has_iothread m.guest && unload_has_iothread m.unload ≡ false

cleaner_has_iothread-woken :
    (pc : CleanerPc) → cleaner_has_iothread (woken pc) ≡ cleaner_has_iothread pc
cleaner_has_iothread-woken asleep = refl
cleaner_has_iothread-woken _ = refl

cleaner_has_lock-woken : (pc : CleanerPc) → cleaner_has_lock (woken pc) ≡ cleaner_has_lock pc
cleaner_has_lock-woken asleep = refl
cleaner_has_lock-woken _ = refl

CleanerStep-IsExclusive : {m t : Machine} → CleanerStep m t → IsExclusive m → IsExclusive t
CleanerStep-IsExclusive (lock a b e) h = ground arith
CleanerStep-IsExclusive (test_waits a b e) h = ground arith
CleanerStep-IsExclusive (wait a e) h = ground arith
CleanerStep-IsExclusive (wake_spuriously a e) h = ground arith
CleanerStep-IsExclusive (test_stops a b e) h = ground arith
CleanerStep-IsExclusive (test_cleans a b c e) h = ground arith
CleanerStep-IsExclusive (begin a e) h = ground arith
CleanerStep-IsExclusive (reset_doorbell a e) h = ground arith
CleanerStep-IsExclusive (pop v a b e) h = ground arith
CleanerStep-IsExclusive (copy v a e) h = ground arith
CleanerStep-IsExclusive (move v a e) h = ground arith
CleanerStep-IsExclusive (settle a e) h = ground arith
CleanerStep-IsExclusive (decide a e) h = ground arith
CleanerStep-IsExclusive (lock_iothread a b e) h = ground arith
CleanerStep-IsExclusive (raise a e) h = ground arith
CleanerStep-IsExclusive (unlock_iothread a e) h = ground arith
CleanerStep-IsExclusive (recount a e) h = ground arith
CleanerStep-IsExclusive (unlock a e) h = ground arith

Step-IsExclusive : {m t : Machine} → Step m t → IsExclusive m → IsExclusive t
Step-IsExclusive (by_cleaner st) h = CleanerStep-IsExclusive st h
Step-IsExclusive (by_guest (dispatch a g b e)) h = ground arith
Step-IsExclusive (by_guest (access a g b e)) h = ground arith
Step-IsExclusive {m} (by_guest (signal_bell g e)) h =
    ground (arith, cleaner_has_iothread-woken m.cleaner, cleaner_has_lock-woken m.cleaner)
Step-IsExclusive (by_guest (return g e)) h = ground arith
Step-IsExclusive (by_unload (begin_unload u b e)) h = ground arith
Step-IsExclusive (by_unload (lock_uninit u b e)) h = ground arith
Step-IsExclusive (by_unload (stop u e)) h = ground arith
Step-IsExclusive {m} (by_unload (signal_stop u e)) h =
    ground (arith, cleaner_has_iothread-woken m.cleaner, cleaner_has_lock-woken m.cleaner)
Step-IsExclusive (by_unload (join u ended e)) h = ground arith
Step-IsExclusive (by_unload (destroy_condition u e)) h = ground arith
Step-IsExclusive (by_unload (destroy_lock u e)) h = ground arith
Step-IsExclusive (by_unload (unref u e)) h = ground arith

pub Reach-IsExclusive : {s : DeviceState} {m : Machine} → Reach s m → IsExclusive m
Reach-IsExclusive start = ground arith
Reach-IsExclusive (later r st) = Step-IsExclusive st (Reach-IsExclusive r)

-- The thread, with the processing lock in its hands, wants the iothread lock, and whoever has that
-- wants the processing lock: an access of a queue's register, or the unloading.
pub data Deadlocked (m : Machine) : Type 0 where
  with_guest :
      (a : Access) → m.cleaner ≡ notifying → m.guest ≡ inside a → needs_lock a ≡ true → Deadlocked m
  with_unload : m.cleaner ≡ notifying → m.unload ≡ begun → Deadlocked m

-- The device is unloaded, and its thread has ended.
pub record Unplugged (m : Machine) : Type 0 where
  pub gone : m.unload ≡ unloaded
  pub ended : m.cleaner ≡ finished

cleaner_stuck :
    {m t : Machine}
    → m.cleaner ≡ notifying
    → guest_has_iothread m.guest || unload_has_iothread m.unload ≡ true
    → CleanerStep m t
    → ⊥
cleaner_stuck n h (lock a b e) = ground arith
cleaner_stuck n h (test_waits a b e) = ground arith
cleaner_stuck n h (wait a e) = ground arith
cleaner_stuck n h (wake_spuriously a e) = ground arith
cleaner_stuck n h (test_stops a b e) = ground arith
cleaner_stuck n h (test_cleans a b c e) = ground arith
cleaner_stuck n h (begin a e) = ground arith
cleaner_stuck n h (reset_doorbell a e) = ground arith
cleaner_stuck n h (pop v a b e) = ground arith
cleaner_stuck n h (copy v a e) = ground arith
cleaner_stuck n h (move v a e) = ground arith
cleaner_stuck n h (settle a e) = ground arith
cleaner_stuck n h (decide a e) = ground arith
cleaner_stuck n h (lock_iothread a b e) = ground arith
cleaner_stuck n h (raise a e) = ground arith
cleaner_stuck n h (unlock_iothread a e) = ground arith
cleaner_stuck n h (recount a e) = ground arith
cleaner_stuck n h (unlock a e) = ground arith

Deadlocked-stuck : {m t : Machine} → IsExclusive m → Deadlocked m → ¬ Step m t
Deadlocked-stuck x (with_guest a n g l) (by_cleaner st) = cleaner_stuck n (ground arith) st
Deadlocked-stuck x (with_guest a n g l) (by_guest (dispatch a' g' b e)) = ground arith
Deadlocked-stuck x (with_guest a n g l) (by_guest (access a' g' b e)) = ground arith
Deadlocked-stuck x (with_guest a n g l) (by_guest (signal_bell g' e)) = ground arith
Deadlocked-stuck x (with_guest a n g l) (by_guest (return g' e)) = ground arith
Deadlocked-stuck x (with_guest a n g l) (by_unload (begin_unload u b e)) = ground arith
Deadlocked-stuck x (with_guest a n g l) (by_unload (lock_uninit u b e)) = ground arith
Deadlocked-stuck x (with_guest a n g l) (by_unload (stop u e)) = ground arith
Deadlocked-stuck x (with_guest a n g l) (by_unload (signal_stop u e)) = ground arith
Deadlocked-stuck x (with_guest a n g l) (by_unload (join u ended e)) = ground arith
Deadlocked-stuck x (with_guest a n g l) (by_unload (destroy_condition u e)) = ground arith
Deadlocked-stuck x (with_guest a n g l) (by_unload (destroy_lock u e)) = ground arith
Deadlocked-stuck x (with_guest a n g l) (by_unload (unref u e)) = ground arith
Deadlocked-stuck x (with_unload n u) (by_cleaner st) = cleaner_stuck n (ground arith) st
Deadlocked-stuck x (with_unload n u) (by_guest (dispatch a' g' b e)) = ground arith
Deadlocked-stuck x (with_unload n u) (by_guest (access a' g' b e)) = ground arith
Deadlocked-stuck x (with_unload n u) (by_guest (signal_bell g' e)) = ground arith
Deadlocked-stuck x (with_unload n u) (by_guest (return g' e)) = ground arith
Deadlocked-stuck x (with_unload n u) (by_unload (begin_unload u' b e)) = ground arith
Deadlocked-stuck x (with_unload n u) (by_unload (lock_uninit u' b e)) = ground arith
Deadlocked-stuck x (with_unload n u) (by_unload (stop u' e)) = ground arith
Deadlocked-stuck x (with_unload n u) (by_unload (signal_stop u' e)) = ground arith
Deadlocked-stuck x (with_unload n u) (by_unload (join u' ended e)) = ground arith
Deadlocked-stuck x (with_unload n u) (by_unload (destroy_condition u' e)) = ground arith
Deadlocked-stuck x (with_unload n u) (by_unload (destroy_lock u' e)) = ground arith
Deadlocked-stuck x (with_unload n u) (by_unload (unref u' e)) = ground arith

-- The device can deadlock for good. From every reachable state in which the thread is about to take
-- the iothread lock for an interrupt, while the guest is outside the device and nothing unloads it,
-- a read of the completed queue leads to a state from which no step is possible.
pub deadlock :
    {s : DeviceState} {m : Machine}
    → Reach s m
    → m.cleaner ≡ notifying
    → m.guest ≡ outside
    → m.unload ≡ plugged
    → (t : Machine) × Reach s t
      × (t.guest ≡ inside (reads cq_head_offset_reg))
      × ((u : Machine) → ¬ Step t u)
deadlock {m} r n o p =
    let reads_clean : Step m (record m { guest = inside (reads cq_head_offset_reg) }) =
      by_guest (dispatch (reads cq_head_offset_reg) o (ground arith) refl) in
    (
      record m { guest = inside (reads cq_head_offset_reg) },
      later r reads_clean,
      refl,
      λ u.
          Deadlocked-stuck (Reach-IsExclusive (later r reads_clean))
            (with_guest (reads cq_head_offset_reg) n refl refl),
    )
