-- ===== src/Device/Machine/Alone.antt =====
-- The clean-up thread when nobody else makes a step: how long it can go on,
-- qemu-fpga-char/virtine_fpga.c:327-397.
use linux_pcie_dma.Common.{
  ℕ, ◌+◌, ◌*◌, ◌<◌, ◌≤◌, ◌≡◌, Bool, true, false, arith, length, if◌then◌else◌,
}
use linux_pcie_dma.RingQueue.Filled.{num_filled, num_filled-le, num_filled-pop_head}
use linux_pcie_dma.Device.Machine.Batch.{CleanerSteps, no_more, and_then}
use linux_pcie_dma.Device.Machine.{
  CleanerPc, locking, testing, entering_wait, asleep, beginning, resetting, popping, holding,
  copied, moved, deciding, notifying, raising, raised, recounting, unlocking, finished, Machine,
  CleanerStep, lock, test_waits, wait, wake_spuriously, test_stops, test_cleans, begin,
  reset_doorbell, pop, copy, move, settle, decide, lock_iothread, raise, unlock_iothread, recount,
  unlock,
}

-- The steps that the thread has still to make at each place, with `filled` elements in the ready
-- queue, before it sleeps or ends: nine for an element, and six more for a batch.
abbrev bell_steps : Bool → ℕ → ℕ
bell_steps doorbell filled = if doorbell then 6 + 9 * filled else 0

abbrev pub steps_at : CleanerPc → Bool → ℕ → ℕ
steps_at locking doorbell filled = 3 + bell_steps doorbell filled
steps_at testing doorbell filled = 2 + bell_steps doorbell filled
steps_at entering_wait doorbell filled = 1
steps_at asleep doorbell filled = 0
steps_at beginning doorbell filled = 7 + 9 * filled
steps_at resetting doorbell filled = 6 + 9 * filled
steps_at popping doorbell filled = 5 + 9 * filled + bell_steps doorbell 0
steps_at (holding v) doorbell filled = 13 + 9 * filled + bell_steps doorbell 0
steps_at (copied v) doorbell filled = 12 + 9 * filled + bell_steps doorbell 0
steps_at moved doorbell filled = 11 + 9 * filled + bell_steps doorbell 0
steps_at deciding doorbell filled = 10 + 9 * filled + bell_steps doorbell 0
steps_at notifying doorbell filled = 9 + 9 * filled + bell_steps doorbell 0
steps_at raising doorbell filled = 8 + 9 * filled + bell_steps doorbell 0
steps_at raised doorbell filled = 7 + 9 * filled + bell_steps doorbell 0
steps_at recounting doorbell filled = 6 + 9 * filled + bell_steps doorbell 0
steps_at unlocking doorbell filled = 4 + bell_steps doorbell filled
steps_at finished doorbell filled = 0

abbrev pub steps_owed : Machine → ℕ
steps_owed m = steps_at m.cleaner m.device.fpga.doorbell (num_filled m.device.fpga.rq.buffer)

steps_at-le :
    (pc : CleanerPc) (bell : Bool) (filled : ℕ) → steps_at pc bell filled ≤ 19 + 9 * filled
steps_at-le unlocking bell filled = ground arith
steps_at-le _ bell filled = ground arith

-- No step of the run is a wake-up without a signal.
abbrev pub is_prompted : {m t : Machine} → CleanerStep m t → Bool
is_prompted (wake_spuriously a e) = false
is_prompted _ = true

abbrev pub Prompted : {m t : Machine} → CleanerSteps m t → Type 0
Prompted no_more = Unit
Prompted (and_then run st) = Prompted run × (is_prompted st ≡ true)

abbrev pub num_steps : {m t : Machine} → CleanerSteps m t → ℕ
num_steps no_more = 0
num_steps (and_then run st) = num_steps run + 1

pub CleanerStep-steps_owed :
    {m t : Machine} (st : CleanerStep m t) → is_prompted st ≡ true → steps_owed t < steps_owed m
CleanerStep-steps_owed (lock a b e) p = ground arith
CleanerStep-steps_owed (test_waits a b e) p = ground arith
CleanerStep-steps_owed (wait a e) p = ground arith
CleanerStep-steps_owed (wake_spuriously a e) p = cc
CleanerStep-steps_owed (test_stops a b e) p = ground arith
CleanerStep-steps_owed (test_cleans a b c e) p = ground arith
CleanerStep-steps_owed (begin a e) p = ground arith
CleanerStep-steps_owed (reset_doorbell a e) p = ground arith
CleanerStep-steps_owed {m} (pop v a b e) p = ground (arith, num_filled-pop_head m.device.fpga.rq)
CleanerStep-steps_owed (copy v a e) p = ground arith
CleanerStep-steps_owed (move v a e) p = ground arith
CleanerStep-steps_owed (settle a e) p = ground arith
CleanerStep-steps_owed (decide a e) p = ground arith
CleanerStep-steps_owed (lock_iothread a b e) p = ground arith
CleanerStep-steps_owed (raise a e) p = ground arith
CleanerStep-steps_owed (unlock_iothread a e) p = ground arith
CleanerStep-steps_owed (recount a e) p = ground arith
CleanerStep-steps_owed (unlock a e) p = ground arith

run-steps_owed :
    {m t : Machine} (run : CleanerSteps m t)
    → Prompted run
    → num_steps run + steps_owed t ≤ steps_owed m
run-steps_owed no_more p = omega arith
run-steps_owed (and_then run st) p =
    omega (arith, run-steps_owed run p.0, CleanerStep-steps_owed st p.1)

-- From any state of the device whatsoever, whatever its queues hold: a run of the clean-up thread
-- alone has at most nineteen steps and nine for each place of the ready queue, unless the thread is
-- woken without a signal. So no batch goes on for ever, and the thread never spins.
pub alone_ends :
    {m t : Machine} (run : CleanerSteps m t)
    → Prompted run
    → num_steps run ≤ 19 + 9 * length m.device.fpga.rq.buffer
alone_ends {m} run p =
    let filled = num_filled m.device.fpga.rq.buffer in
    omega (
      arith,
      run-steps_owed run p,
      steps_at-le m.cleaner m.device.fpga.doorbell filled,
      num_filled-le m.device.fpga.rq.buffer,
    )
