-- ===== src/Tests/Machine.antt =====
-- Runs of the whole device at work, and the theorems at them.
use linux_pcie_dma.Common.{ℕ, ◌+◌, ◌≡◌, ◌⊎◌, refl, some, List, [], ◌++◌, arith}
use linux_pcie_dma.Registers.{rq_tail_offset_reg, cq_head_offset_reg, doorbell_reg}
use linux_pcie_dma.Fifo.{Fifo}
use linux_pcie_dma.RingQueue.{pop_head, insert_tail}
use linux_pcie_dma.Device.{VirtineFpgaDevice, DeviceState, Holds}
use linux_pcie_dma.Device.Effects.{Effect}
use linux_pcie_dma.Device.Cleanup.{process_batch}
use linux_pcie_dma.Device.Mmio.{virtine_fpga_mmio_write}
use linux_pcie_dma.Device.Thread
use linux_pcie_dma.Device.Machine.{
  lock, testing, test_cleans, begin, reset_doorbell, pop, copy, move, settle, decide, beginning,
  holding, copied, notifying, unlocking, outside, inside, plugged, reads, writes, Machine, dispatch,
  access, signal_bell, return, Step, by_cleaner, by_guest, started, Reach, start, later,
}
use linux_pcie_dma.Device.Machine.Refine.{threads_of, Step-threads_of}
use linux_pcie_dma.Device.Machine.Deadlock.{Deadlocked, Unplugged, deadlock}
use linux_pcie_dma.Device.Machine.Progress.{CanStep, progress}
use linux_pcie_dma.Device.Machine.Accounts.{Honest, restored, in_hand, pending, Merge}
use linux_pcie_dma.Device.Machine.Accounts.Run.{virtines_accounted}
use linux_pcie_dma.Device.Machine.Accounts.Flow.{Within}
use linux_pcie_dma.Device.Machine.Batch.{CleanerSteps, process_batch_runs}
use linux_pcie_dma.Samples.{idle_device, loaded_device, idle_device-Holds, state_of}

-- A device with two dirty virtines whose doorbell was rung.
abbrev rung_device : DeviceState
rung_device = state_of loaded_device

abbrev Held : Type 0
Held =
    (m : Machine) × Reach rung_device m
    × (m.cleaner ≡ holding 0x100005000)
    × (m.guest ≡ outside)
    × (m.unload ≡ plugged)

-- The thread has taken the first virtine.
held : Held
unfolding pop_head
held = (
  _,
  later
      (later
        (later
          (later (later start (by_cleaner (lock refl refl refl)))
            (by_cleaner (test_cleans refl refl refl refl)))
          (by_cleaner (begin refl refl)))
        (by_cleaner (reset_doorbell refl refl)))
      (by_cleaner (pop 0x100005000 refl refl refl)),
  refl,
  refl,
  refl,
)

abbrev Notifying : Type 0
Notifying =
    (m : Machine) × Reach rung_device m
    × (m.cleaner ≡ notifying)
    × (m.guest ≡ outside)
    × (m.unload ≡ plugged)

-- It has restored it, and wants to raise an interrupt.
about_to_notify : Notifying
unfolding pop_head held insert_tail
about_to_notify = (
  _,
  later
      (later
        (later (later held.1 (by_cleaner (copy 0x100005000 refl refl)))
          (by_cleaner (move 0x100005000 refl refl)))
        (by_cleaner (settle refl refl)))
      (by_cleaner (decide refl refl)),
  refl,
  refl,
  refl,
)

deadlock_example :
    (t : Machine) × Reach rung_device t
    × (t.guest ≡ inside (reads cq_head_offset_reg))
    × ((u : Machine) → ¬ Step t u)
deadlock_example = deadlock about_to_notify.1 about_to_notify.2 about_to_notify.3 about_to_notify.4

abbrev idle : DeviceState
idle = state_of idle_device

abbrev locked : Machine
locked = record (started idle) { cleaner = testing }

locked-Reach : Reach idle locked
locked-Reach = later start (by_cleaner (lock refl refl refl))

Step-threads_of_example :
    Thread.Step (threads_of (started idle)) (threads_of locked)
    ⊎ (threads_of locked ≡ threads_of (started idle))
Step-threads_of_example =
    Step-threads_of {m = started idle} {t = locked} (by_cleaner (lock refl refl refl))

progress_example : CanStep locked ⊎ Deadlocked locked ⊎ Unplugged locked
progress_example = progress (record { doorbell = refl; stopping = refl }) locked-Reach

abbrev Served : Type 0
Served = (m : Machine) × (r : Reach idle m) × Honest r × Within r × (m.cleaner ≡ copied 0x6000)

-- The guest hands over the virtine 0x6000 and rings, and the thread restores it.
served : Served
unfolding pop_head insert_tail virtine_fpga_mmio_write
served =
    let r0 : Reach idle (started idle) = start in
    let r1 =
      later
        (later (later r0 (by_guest (dispatch (writes rq_tail_offset_reg 0x6000) refl refl refl)))
          (by_guest (access (writes rq_tail_offset_reg 0x6000) refl refl refl)))
        (by_guest (return refl refl)) in
    let r2 =
      later
        (later (later r1 (by_guest (dispatch (writes (rq_tail_offset_reg + 4) 0) refl refl refl)))
          (by_guest (access (writes (rq_tail_offset_reg + 4) 0) refl refl refl)))
        (by_guest (return refl refl)) in
    let r3 =
      later
        (later (later r2 (by_guest (dispatch (writes doorbell_reg 1) refl refl refl)))
          (by_guest (access (writes doorbell_reg 1) refl refl refl)))
        (by_guest (signal_bell refl refl)) in
    let r4 =
      later
        (later
          (later
            (later
              (later (later r3 (by_cleaner (lock refl refl refl)))
                (by_cleaner (test_cleans refl refl refl refl)))
              (by_cleaner (begin refl refl)))
            (by_cleaner (reset_doorbell refl refl)))
          (by_cleaner (pop 0x6000 refl refl refl)))
        (by_cleaner (copy 0x6000 refl refl)) in
    (
      _,
      r4,
      (
        (
          (
            (
              (
                (
                  (
                    (
                      (((((((tt, tt), (λ e. omega arith)), tt), tt), (λ e. omega arith)), tt), tt),
                      (λ e. omega arith),
                    ),
                    tt,
                  ),
                  tt,
                ),
                tt,
              ),
              tt,
            ),
            tt,
          ),
          tt,
        ),
        tt,
      ),
      omega arith,
      refl,
    )

virtines_accounted_example :
    (dirty : Fifo) × (clean : Fifo) × (through : List ℕ) × Holds served.0.device.fpga dirty clean
    × (served.0.accepted ≡ restored served.0.asked ++ (in_hand served.0.cleaner ++ dirty))
    × (restored served.0.asked ≡ through ++ pending served.0.cleaner)
    × Merge (served.0.fetched ++ clean) served.0.dropped through
virtines_accounted_example = virtines_accounted served.1 idle_device-Holds served.2

abbrev at_batch : Machine
at_batch = record (started rung_device) { cleaner = beginning }

process_batch_runs_example :
    (final : VirtineFpgaDevice) × (effects : List Effect) × (process_batch loaded_device
      ≡ some (final, effects))
    × (t : Machine) × CleanerSteps at_batch t
    × (t.cleaner ≡ unlocking)
    × (t.device.fpga ≡ final)
    × (t.asked ≡ [] ++ effects)
process_batch_runs_example = process_batch_runs at_batch refl refl (omega arith)
