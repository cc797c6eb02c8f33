-- ===== src/Device/Machine/Accounts/Flow.antt =====
-- What a guest has to keep to so that no virtine is lost.
use linux_pcie_dma.Common.{
  ℕ, ◌≤◌, ◌+◌, ◌<◌, ◌≡◌, refl, sym, ap, ◌∙◌, true, List, [], ◌∷◌, ◌++◌, arith, All, length,
  length-append,
}
use mathlib.Core.Path.{subst}
use linux_pcie_dma.Fifo.{Fifo}
use linux_pcie_dma.Device.{DeviceState, Holds}
use linux_pcie_dma.Device.Machine.{
  copied, Machine, has_room, CleanerStep, lock, test_waits, wait, wake_spuriously, test_stops,
  test_cleans, begin, reset_doorbell, pop, copy, move, settle, decide, lock_iothread, raise,
  unlock_iothread, recount, unlock, dispatch, access, signal_bell, return, begin_unload,
  lock_uninit, stop, signal_stop, join, destroy_condition, destroy_lock, unref, Step, by_cleaner,
  by_guest, by_unload, Reach, start, later,
}
use linux_pcie_dma.Registers.{num_possible_virtines}
use linux_pcie_dma.Device.Machine.Accounts.{
  Honest, restored, in_hand, pending, Merge, neither, left, right, Accounts, has_room_lem,
}
use linux_pcie_dma.Device.Machine.Accounts.Run.{Reach-Accounts}

-- At every state of a run, at most a hundred accepted virtines are not fetched yet.
abbrev pub Within : {s : DeviceState} {m : Machine} → Reach s m → Type 0
Within {m} start = length m.accepted ≤ length m.fetched + num_possible_virtines
Within {m} (later r st) = Within r × (length m.accepted ≤ length m.fetched + num_possible_virtines)

pub length-Merge : {xs ys zs : List ℕ} → Merge xs ys zs → length zs ≡ length xs + length ys
length-Merge neither = omega arith
length-Merge (left {xs} {zs} a h e f) = omega (
  arith,
  length-Merge h,
  ap length e,
  ap length f,
  length-append xs (a ∷ []),
  length-append zs (a ∷ []),
)
length-Merge (right {ys} {zs} a h e f) = omega (
  arith,
  length-Merge h,
  ap length e,
  ap length f,
  length-append ys (a ∷ []),
  length-append zs (a ∷ []),
)

Merge-nil : {xs ys zs : List ℕ} → Merge xs ys zs → ys ≡ [] → zs ≡ xs
Merge-nil neither n = refl
Merge-nil (left a h e f) n = f ∙ ap (λ l. l ++ (a ∷ [])) (Merge-nil h n) ∙ sym e
Merge-nil (right {ys} a h e f) n =
    absurd (omega (arith, ap length (sym e ∙ n), length-append ys (a ∷ [])))

-- With nothing dropped and at most a hundred virtines under way, the completed queue has room for
-- the one that was just restored.
room_for_pending :
    (m : Machine) (v : ℕ)
    → Accounts m
    → length m.accepted ≤ length m.fetched + num_possible_virtines
    → m.dropped ≡ []
    → m.cleaner ≡ copied v
    → has_room m.device.fpga.cq v ≡ true
room_for_pending m v h few d c =
    let through : h.through ≡ m.fetched ++ h.clean = Merge-nil h.merged d in
    let split : restored m.asked ≡ (m.fetched ++ h.clean) ++ (v ∷ []) =
      subst (λ pc. restored m.asked ≡ (m.fetched ++ h.clean) ++ pending pc) c
        (h.split ∙ ap (λ l. l ++ pending m.cleaner) through) in
    let pos : All (λ v. 0 < v) (v ∷ []) =
      subst (λ pc. All (λ v. 0 < v) (pending pc)) c h.pending_nonzero in
    let total : length m.accepted
        ≡ length (restored m.asked) + length (in_hand m.cleaner ++ h.dirty) =
      ap length h.taken ∙ length-append (restored m.asked) (in_hand m.cleaner ++ h.dirty) in
    let small : length h.clean < num_possible_virtines = omega (
      arith,
      total,
      ap length split,
      length-append (m.fetched ++ h.clean) (v ∷ []),
      length-append m.fetched h.clean,
    ) in
    has_room_lem h.clean v h.holds.completed pos.0 ∙ ground arith

CleanerStep-dropped :
    {m t : Machine}
    → CleanerStep m t
    → Accounts m
    → length m.accepted ≤ length m.fetched + num_possible_virtines
    → m.dropped ≡ []
    → t.dropped ≡ []
CleanerStep-dropped (lock a b e) h few d = ap (λ r. r.dropped) e ∙ d
CleanerStep-dropped (test_waits a b e) h few d = ap (λ r. r.dropped) e ∙ d
CleanerStep-dropped (wait a e) h few d = ap (λ r. r.dropped) e ∙ d
CleanerStep-dropped (wake_spuriously a e) h few d = ap (λ r. r.dropped) e ∙ d
CleanerStep-dropped (test_stops a b e) h few d = ap (λ r. r.dropped) e ∙ d
CleanerStep-dropped (test_cleans a b c e) h few d = ap (λ r. r.dropped) e ∙ d
CleanerStep-dropped (begin a e) h few d = ap (λ r. r.dropped) e ∙ d
CleanerStep-dropped (reset_doorbell a e) h few d = ap (λ r. r.dropped) e ∙ d
CleanerStep-dropped (pop v a b e) h few d = ap (λ r. r.dropped) e ∙ d
CleanerStep-dropped (copy v a e) h few d = ap (λ r. r.dropped) e ∙ d
CleanerStep-dropped {m} (move v a e) h few d =
    ap (λ r. r.dropped) e ∙ rw (room_for_pending m v h few d a, d) refl
CleanerStep-dropped (settle a e) h few d = ap (λ r. r.dropped) e ∙ d
CleanerStep-dropped (decide a e) h few d = ap (λ r. r.dropped) e ∙ d
CleanerStep-dropped (lock_iothread a b e) h few d = ap (λ r. r.dropped) e ∙ d
CleanerStep-dropped (raise a e) h few d = ap (λ r. r.dropped) e ∙ d
CleanerStep-dropped (unlock_iothread a e) h few d = ap (λ r. r.dropped) e ∙ d
CleanerStep-dropped (recount a e) h few d = ap (λ r. r.dropped) e ∙ d
CleanerStep-dropped (unlock a e) h few d = ap (λ r. r.dropped) e ∙ d

Step-dropped :
    {m t : Machine}
    → Step m t
    → Accounts m
    → length m.accepted ≤ length m.fetched + num_possible_virtines
    → m.dropped ≡ []
    → t.dropped ≡ []
Step-dropped (by_cleaner st) h few d = CleanerStep-dropped st h few d
Step-dropped (by_guest (dispatch a g b e)) h few d = ap (λ r. r.dropped) e ∙ d
Step-dropped (by_guest (access a g b e)) h few d = ap (λ r. r.dropped) e ∙ d
Step-dropped (by_guest (signal_bell g e)) h few d = ap (λ r. r.dropped) e ∙ d
Step-dropped (by_guest (return g e)) h few d = ap (λ r. r.dropped) e ∙ d
Step-dropped (by_unload (begin_unload u b e)) h few d = ap (λ r. r.dropped) e ∙ d
Step-dropped (by_unload (lock_uninit u b e)) h few d = ap (λ r. r.dropped) e ∙ d
Step-dropped (by_unload (stop u e)) h few d = ap (λ r. r.dropped) e ∙ d
Step-dropped (by_unload (signal_stop u e)) h few d = ap (λ r. r.dropped) e ∙ d
Step-dropped (by_unload (join u ended e)) h few d = ap (λ r. r.dropped) e ∙ d
Step-dropped (by_unload (destroy_condition u e)) h few d = ap (λ r. r.dropped) e ∙ d
Step-dropped (by_unload (destroy_lock u e)) h few d = ap (λ r. r.dropped) e ∙ d
Step-dropped (by_unload (unref u e)) h few d = ap (λ r. r.dropped) e ∙ d

pub Within-last :
    {s : DeviceState} {m : Machine} (r : Reach s m)
    → Within r
    → length m.accepted ≤ length m.fetched + num_possible_virtines
Within-last start w = w
Within-last (later r st) w = w.1

nothing_dropped :
    {s : DeviceState} {m : Machine} (r : Reach s m)
    → Holds s.fpga [] []
    → Honest r
    → Within r
    → m.dropped ≡ []
nothing_dropped start h ok w = refl
nothing_dropped (later r st) h ok w =
    Step-dropped st (Reach-Accounts r h ok.0) (Within-last r w.0) (nothing_dropped r h ok.0 w.0)

-- A guest that hands over no address 0 and keeps at most a hundred virtines under way loses none:
-- at every state of every run, the virtines accepted so far are, in this order, those fetched, those
-- in the completed queue, the one on its way there, the one about to be restored, and those in the
-- ready queue.
pub virtines_kept :
    {s : DeviceState} {m : Machine} (r : Reach s m)
    → Holds s.fpga [] []
    → Honest r
    → Within r
    → (dirty : Fifo) × (clean : Fifo) × Holds m.device.fpga dirty clean
      × (m.dropped ≡ [])
      × (m.accepted ≡ ((m.fetched ++ clean) ++ pending m.cleaner) ++ (in_hand m.cleaner ++ dirty))
virtines_kept {m} r h ok w =
    let accounts = Reach-Accounts r h ok in
    let d = nothing_dropped r h ok w in
    let split : restored m.asked ≡ (m.fetched ++ accounts.clean) ++ pending m.cleaner =
      accounts.split ∙ ap (λ l. l ++ pending m.cleaner) (Merge-nil accounts.merged d) in
    (
      accounts.dirty,
      accounts.clean,
      accounts.holds,
      d,
      accounts.taken ∙ ap (λ l. l ++ (in_hand m.cleaner ++ accounts.dirty)) split,
    )
