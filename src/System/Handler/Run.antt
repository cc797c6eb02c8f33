-- ===== src/System/Handler/Run.antt =====
-- Runs of the device at work that the handler and the thread carry on.
use linux_pcie_dma.Common.{
  ℕ, ◌^◌, ◌≤◌, ◌<◌, ◌≡◌, refl, sym, ap, Bool, not, List, [], ◌∷◌, ◌++◌, arith, All, length,
  length-append, All-append, All-split,
}
use linux_pcie_dma.Device.{DeviceState, Holds}
use linux_pcie_dma.Device.Machine.{
  reads, Machine, CleanerStep, lock, test_waits, wait, wake_spuriously, test_stops, test_cleans,
  begin, reset_doorbell, pop, copy, move, settle, decide, lock_iothread, raise, unlock_iothread,
  recount, unlock, dispatch, access, return, by_cleaner, by_guest, Reach, later,
}
use linux_pcie_dma.Device.Machine.Accounts.{
  Honest, restored, in_hand, pending, Merge, neither, left, right,
}
use linux_pcie_dma.Device.Machine.Accounts.Run.{virtines_accounted}
use linux_pcie_dma.Device.Machine.Accounts.Flow.{length-Merge}
use mathlib.Core.Path.{subst}
use linux_pcie_dma.Device.Machine.Batch.{CleanerSteps, no_more, and_then}
use linux_pcie_dma.System.Handler.{IsOpen, read_at, got_in, later_entries, half_offset, Interleaved}

-- A run that keeps the guest's promise.
pub record Run (s : DeviceState) (m : Machine) : Type 0 where
  pub reach : Reach s m
  pub honest : Honest reach

pub CleanerSteps-Run : {s : DeviceState} {m t : Machine} → CleanerSteps m t → Run s m → Run s t
CleanerSteps-Run no_more r = r
CleanerSteps-Run (and_then steps st) r =
    let before = CleanerSteps-Run steps r in
    record { reach = later before.reach (by_cleaner st); honest = (before.honest, tt) }

pub read_at-Run :
    {s : DeviceState} {m : Machine} (offset : ℕ) → IsOpen m → Run s m → Run s (read_at m offset)
unfolding read_at
read_at-Run {m = m} offset o r = record {
  reach =
      later
        (later (later r.reach (by_guest (dispatch (reads offset) o.guest (ground arith) refl)))
          (by_guest (access (reads offset) refl (ground arith) refl)))
        (by_guest (return refl (ground arith)));
  honest = (((r.honest, tt), tt), tt);
}

-- What the thread leaves alone.
pub record SameGuest (m t : Machine) : Type 0 where
  pub accepted : t.accepted ≡ m.accepted
  pub fetched : t.fetched ≡ m.fetched
  pub half : t.device.split_return ≡ m.device.split_return

CleanerStep-SameGuest : {m t : Machine} → CleanerStep m t → SameGuest m t
CleanerStep-SameGuest (lock a b e) = ground arith
CleanerStep-SameGuest (test_waits a b e) = ground arith
CleanerStep-SameGuest (wait a e) = ground arith
CleanerStep-SameGuest (wake_spuriously a e) = ground arith
CleanerStep-SameGuest (test_stops a b e) = ground arith
CleanerStep-SameGuest (test_cleans a b c e) = ground arith
CleanerStep-SameGuest (begin a e) = ground arith
CleanerStep-SameGuest (reset_doorbell a e) = ground arith
CleanerStep-SameGuest (pop v a b e) = ground arith
CleanerStep-SameGuest (copy v a e) = ground arith
CleanerStep-SameGuest (move v a e) = ground arith
CleanerStep-SameGuest (settle a e) = ground arith
CleanerStep-SameGuest (decide a e) = ground arith
CleanerStep-SameGuest (lock_iothread a b e) = ground arith
CleanerStep-SameGuest (raise a e) = ground arith
CleanerStep-SameGuest (unlock_iothread a e) = ground arith
CleanerStep-SameGuest (recount a e) = ground arith
CleanerStep-SameGuest (unlock a e) = ground arith

pub CleanerSteps-SameGuest : {m t : Machine} → CleanerSteps m t → SameGuest m t
CleanerSteps-SameGuest no_more = ground arith
CleanerSteps-SameGuest (and_then steps st) =
    let before = CleanerSteps-SameGuest steps in let last = CleanerStep-SameGuest st in ground arith

-- The next access gets in after steps of the thread, and the rest goes on from there.
pub record Entry (second : Bool) (m : Machine) (entries : List Machine) : Type 0 where
  pub steps : CleanerSteps m (got_in m entries)
  pub open_there : IsOpen (got_in m entries)
  pub rest :
      Interleaved
        (not second)
        (read_at (got_in m entries) (half_offset second))
        (later_entries entries)

pub Interleaved-Entry :
    (second : Bool) (m : Machine) (entries : List Machine)
    → Interleaved second m entries
    → Entry second m entries
unfolding read_at
Interleaved-Entry second m [] o = record {
  steps = no_more;
  open_there = o;
  rest = record { lock = o.lock; iothread = o.iothread; guest = o.guest; unload = o.unload };
}
Interleaved-Entry second m (entry ∷ entries) (steps, o, rest) = record {
  steps = steps;
  open_there = o;
  rest = rest;
}

All-Merge : (P : ℕ → Type 0) {xs ys zs : List ℕ} → Merge xs ys zs → All P zs → All P xs
All-Merge P neither h = tt
All-Merge P (left {xs} {zs = zs} a merged e f) h =
    let both = All-split P zs (a ∷ []) (subst (All P) f h) in
    subst (All P) (sym e) (All-append P xs (a ∷ []) (All-Merge P merged both.0) both.1)
All-Merge P (right {zs = zs} a merged e f) h =
    All-Merge P merged (All-split P zs (a ∷ []) (subst (All P) f h)).0

-- What was fetched was accepted before.
pub record Covered (m : Machine) : Type 0 where
  pub words : All (λ v. v < 2 ^ 64) m.fetched
  pub few : length m.fetched ≤ length m.accepted

pub Run-Covered :
    {s : DeviceState} {m : Machine}
    → Run s m
    → Holds s.fpga [] []
    → All (λ v. v < 2 ^ 64) m.accepted
    → Covered m
Run-Covered {m = m} r h words =
    let (dirty, clean, through, holds, taken, split, merged) =
      virtines_accounted r.reach h r.honest in
    let word : ℕ → Type 0 = λ v. v < 2 ^ 64 in
    let on_restored = All-split word (restored m.asked) _ (subst (All word) taken words) in
    let on_through = All-split word through _ (subst (All word) split on_restored.0) in
    record {
      words = (All-split word m.fetched clean (All-Merge word merged on_through.0)).0;
      few = omega (
        arith,
        length-Merge merged,
        length-append m.fetched clean,
        ap length split,
        length-append through (pending m.cleaner),
        ap length taken,
        length-append (restored m.asked) (in_hand m.cleaner ++ dirty),
      );
    }
