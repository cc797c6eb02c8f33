-- ===== src/Device/Machine/Progress.antt =====
-- Apart from two forms of deadlock, the device at work never blocks.
use linux_pcie_dma.Common.{
  ◌≡◌, ◌≢◌, ◌⊎◌, inl, inr, refl, Bool, true, false, ◌&&◌, ◌||◌, arith, Bool-cases,
}
use linux_pcie_dma.Device.{DeviceState}
use linux_pcie_dma.Device.Thread.Wakeups.{join_awake}
use linux_pcie_dma.Device.Machine.Refine.{IsFresh, Reach-threads_of, handle_flags}
use linux_pcie_dma.Device.Machine.Deadlock.{
  IsExclusive, Reach-IsExclusive, Deadlocked, with_guest, with_unload, Unplugged,
}
use linux_pcie_dma.Device.Machine.Teardown.{is_torn_down, Reach-ended}
use linux_pcie_dma.Device.Machine.{
  CleanerPc, locking, testing, entering_wait, asleep, beginning, resetting, popping, holding,
  copied, moved, deciding, notifying, raising, raised, recounting, unlocking, finished, GuestPc,
  outside, inside, signalling_bell, returning, UnloadPc, plugged, begun, unloading, signalling,
  joining, joined, condition_destroyed, lock_destroyed, unloaded, must_wait, Machine,
  cleaner_has_lock, unload_has_lock, cleaner_has_iothread, woken, needs_lock, reads, CleanerStep,
  lock, test_waits, wait, wake_spuriously, test_stops, test_cleans, begin, reset_doorbell, pop,
  copy, move, settle, decide, lock_iothread, raise, unlock_iothread, recount, unlock, dispatch,
  access, signal_bell, return, begin_unload, lock_uninit, stop, signal_stop, join,
  destroy_condition, destroy_lock, unref, Step, by_cleaner, by_guest, by_unload, Reach, start,
  later,
}

-- Past its tests, or about to sleep.
abbrev pub works : CleanerPc → Bool
works locking = false
works testing = false
works asleep = false
works finished = false
works _ = true

-- Once the stopping flag is set, the thread does not begin anything.
abbrev pub IsStopped : Machine → Type 0
IsStopped m = m.device.fpga.stopping ≡ true → works m.cleaner ≡ false

works-woken : (pc : CleanerPc) → works (woken pc) ≡ works pc
works-woken asleep = refl
works-woken _ = refl

CleanerStep-IsStopped : {m t : Machine} → CleanerStep m t → IsStopped m → IsStopped t
CleanerStep-IsStopped (lock a b e) h = ground arith
CleanerStep-IsStopped (test_waits a b e) h = ground arith
CleanerStep-IsStopped (wait a e) h = ground arith
CleanerStep-IsStopped (wake_spuriously a e) h = ground arith
CleanerStep-IsStopped (test_stops a b e) h = ground arith
CleanerStep-IsStopped (test_cleans a b c e) h = ground arith
CleanerStep-IsStopped (begin a e) h = ground arith
CleanerStep-IsStopped (reset_doorbell a e) h = ground arith
CleanerStep-IsStopped (pop v a b e) h = ground arith
CleanerStep-IsStopped (copy v a e) h = ground arith
CleanerStep-IsStopped (move v a e) h = ground arith
CleanerStep-IsStopped (settle a e) h = ground arith
CleanerStep-IsStopped (decide a e) h = ground arith
CleanerStep-IsStopped (lock_iothread a b e) h = ground arith
CleanerStep-IsStopped (raise a e) h = ground arith
CleanerStep-IsStopped (unlock_iothread a e) h = ground arith
CleanerStep-IsStopped (recount a e) h = ground arith
CleanerStep-IsStopped (unlock a e) h = ground arith

Step-IsStopped : {m t : Machine} → IsExclusive m → Step m t → IsStopped m → IsStopped t
Step-IsStopped x (by_cleaner st) h = CleanerStep-IsStopped st h
Step-IsStopped x (by_guest (dispatch a g b e)) h = ground arith
Step-IsStopped {m} x (by_guest (access a g b e)) h = ground (arith, handle_flags m.device a)
Step-IsStopped {m} x (by_guest (signal_bell g e)) h = ground (arith, works-woken m.cleaner)
Step-IsStopped x (by_guest (return g e)) h = ground arith
Step-IsStopped x (by_unload (begin_unload u b e)) h = ground arith
Step-IsStopped x (by_unload (lock_uninit u b e)) h = ground arith
Step-IsStopped x (by_unload (stop u e)) h = ground arith
Step-IsStopped {m} x (by_unload (signal_stop u e)) h = ground (arith, works-woken m.cleaner)
Step-IsStopped x (by_unload (join u ended e)) h = ground arith
Step-IsStopped x (by_unload (destroy_condition u e)) h = ground arith
Step-IsStopped x (by_unload (destroy_lock u e)) h = ground arith
Step-IsStopped x (by_unload (unref u e)) h = ground arith

pub Reach-IsStopped : {s : DeviceState} {m : Machine} → IsFresh s → Reach s m → IsStopped m
Reach-IsStopped fresh start = ground arith
Reach-IsStopped fresh (later r st) =
    Step-IsStopped (Reach-IsExclusive r) st (Reach-IsStopped fresh r)

-- A step that the thread makes without a signal.
abbrev pub is_spurious : {m t : Machine} → Step m t → Bool
is_spurious (by_cleaner (wake_spuriously a e)) = true
is_spurious _ = false

-- Some step is possible, and it needs no spurious wake-up.
abbrev pub CanStep : Machine → Type 0
CanStep m = (t : Machine) × (st : Step m t) × (is_spurious st ≡ false)

testing_steps : (m : Machine) → m.cleaner ≡ testing → CanStep m
testing_steps m c = elim (Bool-cases m.device.fpga.stopping) [
  | inl stops ↦ (_, by_cleaner (test_stops c stops refl), refl)
  | inr runs ↦ elim (Bool-cases (must_wait m)) [
    | inl waits ↦ (_, by_cleaner (test_waits c waits refl), refl)
    | inr rung ↦ (_, by_cleaner (test_cleans c rung runs refl), refl)
  ]
]

-- The thread with the processing lock goes on, unless it wants the iothread lock.
cleaner_steps :
    (m : Machine) (pc : CleanerPc)
    → m.cleaner ≡ pc
    → cleaner_has_lock pc ≡ true
    → pc ≢ notifying
    → CanStep m
cleaner_steps m locking c l n = absurd (ground arith)
cleaner_steps m testing c l n = testing_steps m c
cleaner_steps m entering_wait c l n = (_, by_cleaner (wait c refl), refl)
cleaner_steps m asleep c l n = absurd (ground arith)
cleaner_steps m beginning c l n = (_, by_cleaner (begin c refl), refl)
cleaner_steps m resetting c l n = (_, by_cleaner (reset_doorbell c refl), refl)
cleaner_steps m popping c l n = (_, by_cleaner (pop _ c refl refl), refl)
cleaner_steps m (holding v) c l n = (_, by_cleaner (copy v c refl), refl)
cleaner_steps m (copied v) c l n = (_, by_cleaner (move v c refl), refl)
cleaner_steps m moved c l n = (_, by_cleaner (settle c refl), refl)
cleaner_steps m deciding c l n = (_, by_cleaner (decide c refl), refl)
cleaner_steps m notifying c l n = absurd (n refl)
cleaner_steps m raising c l n = (_, by_cleaner (raise c refl), refl)
cleaner_steps m raised c l n = (_, by_cleaner (unlock_iothread c refl), refl)
cleaner_steps m recounting c l n = (_, by_cleaner (recount c refl), refl)
cleaner_steps m unlocking c l n = (_, by_cleaner (unlock c refl), refl)
cleaner_steps m finished c l n = absurd (ground arith)

lock_holder :
    (m : Machine) (pc : CleanerPc)
    → m.cleaner ≡ pc
    → cleaner_has_lock pc ≡ true
    → CanStep m ⊎ (m.cleaner ≡ notifying)
lock_holder m notifying c l = inr c
lock_holder m pc c l = inl (cleaner_steps m pc c l (ground arith))

iothread_holder :
    (m : Machine) (pc : CleanerPc) → m.cleaner ≡ pc → cleaner_has_iothread pc ≡ true → CanStep m
iothread_holder m raising c l = (_, by_cleaner (raise c refl), refl)
iothread_holder m raised c l = (_, by_cleaner (unlock_iothread c refl), refl)
iothread_holder m _ c l = absurd (ground arith)

-- While the unloading waits for the thread, which sees the flag when it is next awake.
joining_steps :
    (m : Machine) (pc : CleanerPc)
    → m.cleaner ≡ pc
    → m.unload ≡ joining
    → works pc ≡ false
    → pc ≢ asleep
    → CanStep m
joining_steps m locking c j w n = (_, by_cleaner (lock c (ground arith) refl), refl)
joining_steps m testing c j w n = testing_steps m c
joining_steps m asleep c j w n = absurd (n refl)
joining_steps m finished c j w n = (_, by_unload (join j c refl), refl)
joining_steps m _ c j w n = absurd (ground arith)

module _ (m : Machine) (x : IsExclusive m) (stopped : IsStopped m)
    (awake : m.unload ≡ joining → (m.cleaner ≢ asleep) × (m.device.fpga.stopping ≡ true))
    (ended : is_torn_down m.unload ≡ true → m.cleaner ≡ finished) where
  Outcome : Type 0
  Outcome = CanStep m ⊎ Deadlocked m ⊎ Unplugged m

  unload_steps : (u : UnloadPc) → m.unload ≡ u → m.guest ≡ outside → Outcome
  unfolding Outcome
  unload_steps plugged u g = elim (Bool-cases (cleaner_has_iothread m.cleaner)) [
    | inl held ↦ inl (iothread_holder m m.cleaner refl held)
    | inr free ↦ inl (_, by_guest (dispatch (reads 0) g (ground arith) refl), refl)
  ]
  unload_steps begun u g = elim (Bool-cases (cleaner_has_lock m.cleaner)) [
    | inl held ↦ elim (lock_holder m m.cleaner refl held) [
      | inl goes ↦ inl goes
      | inr n ↦ inr (inl (with_unload n u))
    ]
    | inr free ↦ inl (_, by_unload (lock_uninit u free refl), refl)
  ]
  unload_steps unloading u g = inl (_, by_unload (stop u refl), refl)
  unload_steps signalling u g = inl (_, by_unload (signal_stop u refl), refl)
  unload_steps joining u g =
      let (wakeful, flagged) = awake u in
      inl (joining_steps m m.cleaner refl u (stopped flagged) wakeful)
  unload_steps joined u g = inl (_, by_unload (destroy_condition u refl), refl)
  unload_steps condition_destroyed u g = inl (_, by_unload (destroy_lock u refl), refl)
  unload_steps lock_destroyed u g = inl (_, by_unload (unref u refl), refl)
  unload_steps unloaded u g = inr (inr (record { gone = u; ended = ended (ground arith) }))

  guest_steps : (g : GuestPc) → m.guest ≡ g → Outcome
  unfolding Outcome
  guest_steps outside g = unload_steps m.unload refl g
  guest_steps signalling_bell g = inl (_, by_guest (signal_bell g refl), refl)
  guest_steps returning g = inl (_, by_guest (return g refl), refl)
  guest_steps (inside a) g =
      elim (Bool-cases (needs_lock a && (cleaner_has_lock m.cleaner || unload_has_lock m.unload))) [
        | inr free ↦ inl (_, by_guest (access a g free refl), refl)
        | inl wants ↦
            let held : cleaner_has_lock m.cleaner ≡ true = ground (arith, x.guest_unload) in
            elim (lock_holder m m.cleaner refl held) [
              | inl goes ↦ inl goes
              | inr n ↦ inr (inl (with_guest a n g (ground arith)))
            ]
      ]

-- In every reachable state of the device some step is possible without a spurious wake-up, or it is
-- in one of the two forms of deadlock, or it is unloaded and its thread has ended.
pub progress :
    {s : DeviceState} {m : Machine} → IsFresh s → Reach s m → CanStep m ⊎ Deadlocked m ⊎ Unplugged m
unfolding Outcome
progress {m} fresh r =
    guest_steps m (Reach-IsExclusive r) (Reach-IsStopped fresh r)
      (λ j.
        let (awake, about, flagged) = join_awake (Reach-threads_of fresh r) (ground arith) in
        (ground arith, flagged))
      (Reach-ended r) m.guest refl
