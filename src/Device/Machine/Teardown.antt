-- ===== src/Device/Machine/Teardown.antt =====
-- The end of the device: virtine_fpga_uninit, qemu-fpga-char/virtine_fpga.c:476-497, against the
-- clean-up thread that it stops and the guest.
use linux_pcie_dma.Common.{◌≡◌, refl, Bool, true, false, ◌&&◌, ◌||◌, arith}
use linux_pcie_dma.Device.{DeviceState}
use linux_pcie_dma.Device.Machine.Deadlock.{Reach-IsExclusive}
use linux_pcie_dma.Device.Machine.{
  CleanerPc, asleep, finished, GuestPc, outside, cleaner_has_lock, unload_has_lock,
  guest_has_iothread, unload_has_iothread, UnloadPc, joined, condition_destroyed, lock_destroyed,
  unloaded, Machine, woken, CleanerStep, lock, test_waits, wait, wake_spuriously, test_stops,
  test_cleans, begin, reset_doorbell, pop, copy, move, settle, decide, lock_iothread, raise,
  unlock_iothread, recount, unlock, dispatch, access, signal_bell, return, begin_unload,
  lock_uninit, stop, signal_stop, join, destroy_condition, destroy_lock, unref, Step, by_cleaner,
  by_guest, by_unload, Reach, start, later,
}

-- The unloading has joined the thread, and takes the device apart or has done so.
abbrev pub is_torn_down : UnloadPc → Bool
is_torn_down joined = true
is_torn_down condition_destroyed = true
is_torn_down lock_destroyed = true
is_torn_down unloaded = true
is_torn_down _ = false

finished-woken : (pc : CleanerPc) → pc ≡ finished → woken pc ≡ finished
finished-woken asleep h = ground arith
finished-woken _ h = ground arith

-- A thread that has ended makes no step.
finished-stuck : {m t : Machine} → m.cleaner ≡ finished → ¬ CleanerStep m t
finished-stuck f (lock a b e) = ground arith
finished-stuck f (test_waits a b e) = ground arith
finished-stuck f (wait a e) = ground arith
finished-stuck f (wake_spuriously a e) = ground arith
finished-stuck f (test_stops a b e) = ground arith
finished-stuck f (test_cleans a b c e) = ground arith
finished-stuck f (begin a e) = ground arith
finished-stuck f (reset_doorbell a e) = ground arith
finished-stuck f (pop v a b e) = ground arith
finished-stuck f (copy v a e) = ground arith
finished-stuck f (move v a e) = ground arith
finished-stuck f (settle a e) = ground arith
finished-stuck f (decide a e) = ground arith
finished-stuck f (lock_iothread a b e) = ground arith
finished-stuck f (raise a e) = ground arith
finished-stuck f (unlock_iothread a e) = ground arith
finished-stuck f (recount a e) = ground arith
finished-stuck f (unlock a e) = ground arith

HasEnded : Machine → Type 0
HasEnded m = is_torn_down m.unload ≡ true → m.cleaner ≡ finished

CleanerStep-unload : {m t : Machine} → CleanerStep m t → t.unload ≡ m.unload
CleanerStep-unload (lock a b e) = ground arith
CleanerStep-unload (test_waits a b e) = ground arith
CleanerStep-unload (wait a e) = ground arith
CleanerStep-unload (wake_spuriously a e) = ground arith
CleanerStep-unload (test_stops a b e) = ground arith
CleanerStep-unload (test_cleans a b c e) = ground arith
CleanerStep-unload (begin a e) = ground arith
CleanerStep-unload (reset_doorbell a e) = ground arith
CleanerStep-unload (pop v a b e) = ground arith
CleanerStep-unload (copy v a e) = ground arith
CleanerStep-unload (move v a e) = ground arith
CleanerStep-unload (settle a e) = ground arith
CleanerStep-unload (decide a e) = ground arith
CleanerStep-unload (lock_iothread a b e) = ground arith
CleanerStep-unload (raise a e) = ground arith
CleanerStep-unload (unlock_iothread a e) = ground arith
CleanerStep-unload (recount a e) = ground arith
CleanerStep-unload (unlock a e) = ground arith

Step-HasEnded : {m t : Machine} → Step m t → HasEnded m → HasEnded t
unfolding HasEnded
Step-HasEnded {m} (by_cleaner st) h =
    λ torn. absurd (finished-stuck (h (ground (arith, CleanerStep-unload st))) st)
Step-HasEnded (by_guest (dispatch a g b e)) h = ground arith
Step-HasEnded (by_guest (access a g b e)) h = ground arith
Step-HasEnded {m} (by_guest (signal_bell g e)) h = ground (arith, finished-woken m.cleaner)
Step-HasEnded (by_guest (return g e)) h = ground arith
Step-HasEnded (by_unload (begin_unload u b e)) h = ground arith
Step-HasEnded (by_unload (lock_uninit u b e)) h = ground arith
Step-HasEnded (by_unload (stop u e)) h = ground arith
Step-HasEnded (by_unload (signal_stop u e)) h = ground arith
Step-HasEnded (by_unload (join u ended e)) h = ground arith
Step-HasEnded (by_unload (destroy_condition u e)) h = ground arith
Step-HasEnded (by_unload (destroy_lock u e)) h = ground arith
Step-HasEnded (by_unload (unref u e)) h = ground arith

pub Reach-ended :
    {s : DeviceState} {m : Machine}
    → Reach s m
    → is_torn_down m.unload ≡ true
    → m.cleaner ≡ finished
unfolding HasEnded
Reach-ended start torn = ground arith
Reach-ended (later r st) torn = Step-HasEnded st (Reach-ended r) torn

-- Whose step it is.
abbrev pub is_by_unload : {m t : Machine} → Step m t → Bool
is_by_unload (by_unload st) = true
is_by_unload _ = false

guest-outside :
    (u : UnloadPc) (g : GuestPc)
    → is_torn_down u ≡ true
    → guest_has_iothread g && unload_has_iothread u ≡ false
    → g ≡ outside
guest-outside u outside torn h = refl
guest-outside joined _ torn h = ground arith
guest-outside condition_destroyed _ torn h = ground arith
guest-outside lock_destroyed _ torn h = ground arith
guest-outside unloaded _ torn h = ground arith
guest-outside _ _ torn h = ground arith

only_unload :
    {m t : Machine}
    → m.cleaner ≡ finished
    → m.guest ≡ outside
    → unload_has_iothread m.unload ≡ true
    → (st : Step m t) → is_by_unload st ≡ true
only_unload ended there l (by_cleaner st) = absurd (finished-stuck ended st)
only_unload ended there l (by_guest (dispatch a g b e)) = ground arith
only_unload ended there l (by_guest (access a g b e)) = ground arith
only_unload ended there l (by_guest (signal_bell g e)) = ground arith
only_unload ended there l (by_guest (return g e)) = ground arith
only_unload ended there l (by_unload st) = refl

torn_down_locks :
    (u : UnloadPc)
    → is_torn_down u ≡ true
    → (unload_has_lock u ≡ false) × (unload_has_iothread u ≡ true)
torn_down_locks joined torn = (refl, refl)
torn_down_locks condition_destroyed torn = (refl, refl)
torn_down_locks lock_destroyed torn = (refl, refl)
torn_down_locks unloaded torn = (refl, refl)
torn_down_locks _ torn = ground arith

-- Once the thread is joined, nobody but the unloading makes a step any more: the condition and the
-- processing lock are destroyed with the lock free, the thread ended and the guest outside the
-- device, and are not used again.
pub teardown_safe :
    {s : DeviceState} {m : Machine}
    → Reach s m
    → is_torn_down m.unload ≡ true
    → (m.cleaner ≡ finished)
      × (m.guest ≡ outside)
      × (cleaner_has_lock m.cleaner || unload_has_lock m.unload ≡ false)
      × ((t : Machine) (st : Step m t) → is_by_unload st ≡ true)
teardown_safe {m = m} r torn =
    let ended = Reach-ended r torn in
    let there = guest-outside m.unload m.guest torn (Reach-IsExclusive r).guest_unload in
    let (free, held) = torn_down_locks m.unload torn in
    (ended, there, ground arith, λ t st. only_unload ended there held st)
