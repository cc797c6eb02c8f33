-- ===== src/Device/Machine/Refine.antt =====
-- The device at work as the threads of `Device.Thread`, which it refines.
use mathlib.Core.Path.{subst}
use linux_pcie_dma.Common.{
  sym, ◌≡◌, ◌⊎◌, inl, inr, refl, true, false, arith, Bool-cases, if◌then◌else◌,
}
use linux_pcie_dma.Device.{DeviceState}
use linux_pcie_dma.Device.Mmio.{virtine_fpga_mmio_read}
use linux_pcie_dma.Device.Mmio.Access.{write_settings}
use linux_pcie_dma.Device.Thread
use linux_pcie_dma.Device.Thread.{Threads, ThreadPc, BellPc, UninitPc}
use linux_pcie_dma.Device.Machine.{
  CleanerPc, locking, testing, entering_wait, asleep, beginning, resetting, popping, holding,
  copied, moved, deciding, notifying, raising, raised, recounting, unlocking, finished, GuestPc,
  outside, inside, signalling_bell, returning, UnloadPc, plugged, begun, unloading, signalling,
  joining, joined, condition_destroyed, lock_destroyed, unloaded, Machine, woken, rings, handle,
  Access, reads, writes, CleanerStep, lock, test_waits, wait, wake_spuriously, test_stops,
  test_cleans, begin, reset_doorbell, pop, copy, move, settle, decide, lock_iothread, raise,
  unlock_iothread, recount, unlock, GuestStep, dispatch, access, signal_bell, return, UnloadStep,
  begin_unload, lock_uninit, stop, signal_stop, join, destroy_condition, destroy_lock, unref, Step,
  by_cleaner, by_guest, by_unload, Reach, start, later,
}

-- The device at work as the threads of `Device.Thread` see it.
abbrev pub thread_pc : CleanerPc → ThreadPc
thread_pc locking = ThreadPc.locking
thread_pc testing = ThreadPc.testing
thread_pc entering_wait = ThreadPc.entering_wait
thread_pc asleep = ThreadPc.asleep
thread_pc beginning = ThreadPc.beginning
thread_pc resetting = ThreadPc.beginning
thread_pc finished = ThreadPc.finished
thread_pc popping = ThreadPc.cleaning
thread_pc (holding virtine) = ThreadPc.cleaning
thread_pc (copied virtine) = ThreadPc.cleaning
thread_pc moved = ThreadPc.cleaning
thread_pc deciding = ThreadPc.cleaning
thread_pc notifying = ThreadPc.cleaning
thread_pc raising = ThreadPc.cleaning
thread_pc raised = ThreadPc.cleaning
thread_pc recounting = ThreadPc.cleaning
thread_pc unlocking = ThreadPc.cleaning

thread_pc-woken : (pc : CleanerPc) → thread_pc (woken pc) ≡ Thread.woken (thread_pc pc)
thread_pc-woken asleep = refl
thread_pc-woken _ = refl

abbrev pub bell_pc : GuestPc → BellPc
bell_pc signalling_bell = BellPc.rung
bell_pc outside = BellPc.quiet
bell_pc (inside a) = BellPc.quiet
bell_pc returning = BellPc.quiet

abbrev pub uninit_pc : UnloadPc → UninitPc
uninit_pc plugged = UninitPc.loaded
uninit_pc begun = UninitPc.loaded
uninit_pc unloading = UninitPc.unloading
uninit_pc signalling = UninitPc.signalling
uninit_pc joining = UninitPc.joining
uninit_pc joined = UninitPc.joining
uninit_pc condition_destroyed = UninitPc.joining
uninit_pc lock_destroyed = UninitPc.joining
uninit_pc unloaded = UninitPc.joining

abbrev pub threads_of : Machine → Threads
threads_of m = record {
  thread = thread_pc m.cleaner;
  bell = bell_pc m.guest;
  uninit = uninit_pc m.unload;
  doorbell = m.device.fpga.doorbell;
  stopping = m.device.fpga.stopping;
}

CleanerStep-threads_of :
    {m t : Machine}
    → CleanerStep m t
    → Thread.Step (threads_of m) (threads_of t) ⊎ (threads_of t ≡ threads_of m)
CleanerStep-threads_of (lock a b e) = inl (Thread.lock (ground arith) (ground arith) (ground arith))
CleanerStep-threads_of (test_waits a b e) = inl (Thread.test_waits (ground arith) b (ground arith))
CleanerStep-threads_of (wait a e) = inl (Thread.wait (ground arith) (ground arith))
CleanerStep-threads_of (wake_spuriously a e) =
    inl (Thread.wake_spuriously (ground arith) (ground arith))
CleanerStep-threads_of (test_stops a b e) = inl (Thread.test_stops (ground arith) b (ground arith))
CleanerStep-threads_of (test_cleans a b c e) =
    inl (Thread.test_cleans (ground arith) b c (ground arith))
CleanerStep-threads_of (begin a e) = inr (ground arith)
CleanerStep-threads_of (reset_doorbell a e) =
    inl (Thread.reset_doorbell (ground arith) (ground arith))
CleanerStep-threads_of (pop v a b e) = inr (ground arith)
CleanerStep-threads_of (copy v a e) = inr (ground arith)
CleanerStep-threads_of (move v a e) = inr (ground arith)
CleanerStep-threads_of (settle a e) = inr (ground arith)
CleanerStep-threads_of (decide a e) = inr (ground arith)
CleanerStep-threads_of (lock_iothread a b e) = inr (ground arith)
CleanerStep-threads_of (raise a e) = inr (ground arith)
CleanerStep-threads_of (unlock_iothread a e) = inr (ground arith)
CleanerStep-threads_of (recount a e) = inr (ground arith)
CleanerStep-threads_of (unlock a e) = inl (Thread.unlock (ground arith) (ground arith))

-- What an access does to the two flags that the thread waits for.
pub handle_flags :
    (s : DeviceState) (a : Access)
    → ((handle s a).fpga.doorbell ≡ (if rings a then true else s.fpga.doorbell))
      × ((handle s a).fpga.stopping ≡ s.fpga.stopping)
unfolding virtine_fpga_mmio_read
handle_flags s (reads addr) = ground arith
handle_flags s (writes addr val) = ground (arith, write_settings s addr val)

GuestStep-threads_of :
    {m t : Machine}
    → GuestStep m t
    → Thread.Step (threads_of m) (threads_of t) ⊎ (threads_of t ≡ threads_of m)
GuestStep-threads_of (dispatch a g b e) = inr (ground arith)
GuestStep-threads_of {m} (access a g b e) =
    let flags = handle_flags m.device a in
    elim (Bool-cases (rings a)) [
      | inl bell ↦ inl (Thread.ring (ground arith) (ground arith))
      | inr other ↦ inr (ground arith)
    ]
GuestStep-threads_of {m} (signal_bell g e) =
    inl (Thread.signal_bell (ground arith) (ground (arith, thread_pc-woken m.cleaner)))
GuestStep-threads_of (return g e) = inr (ground arith)

UnloadStep-threads_of :
    {m t : Machine}
    → UnloadStep m t
    → Thread.Step (threads_of m) (threads_of t) ⊎ (threads_of t ≡ threads_of m)
UnloadStep-threads_of (begin_unload u b e) = inr (ground arith)
UnloadStep-threads_of (lock_uninit u b e) =
    inl (Thread.lock_uninit (ground arith) (ground arith) (ground arith))
UnloadStep-threads_of (stop u e) = inl (Thread.stop (ground arith) (ground arith))
UnloadStep-threads_of {m} (signal_stop u e) =
    inl (Thread.signal_stop (ground arith) (ground (arith, thread_pc-woken m.cleaner)))
UnloadStep-threads_of (join u ended e) = inr (ground arith)
UnloadStep-threads_of (destroy_condition u e) = inr (ground arith)
UnloadStep-threads_of (destroy_lock u e) = inr (ground arith)
UnloadStep-threads_of (unref u e) = inr (ground arith)

-- Each step of the device at work is one step of the threads of `Device.Thread`, or none that they
-- see: the locking and waking proved of those holds of the whole device.
pub Step-threads_of :
    {m t : Machine}
    → Step m t
    → Thread.Step (threads_of m) (threads_of t) ⊎ (threads_of t ≡ threads_of m)
Step-threads_of (by_cleaner st) = CleanerStep-threads_of st
Step-threads_of (by_guest st) = GuestStep-threads_of st
Step-threads_of (by_unload st) = UnloadStep-threads_of st

-- A device that was just realized.
pub record IsFresh (s : DeviceState) : Type 0 where
  pub doorbell : s.fpga.doorbell ≡ false
  pub stopping : s.fpga.stopping ≡ false

pub Reach-threads_of :
    {s : DeviceState} {m : Machine} → IsFresh s → Reach s m → Thread.Reach (threads_of m)
Reach-threads_of fresh start = subst Thread.Reach (ground arith) Thread.start
Reach-threads_of fresh (later r st) = elim (Step-threads_of st) [
  | inl made ↦ Thread.later (Reach-threads_of fresh r) made
  | inr same ↦ subst Thread.Reach (sym same) (Reach-threads_of fresh r)
]
