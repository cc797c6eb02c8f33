-- ===== src/Tests/Service.antt =====
-- A run of the device from virtine_fpga_realize to an interrupt, and the theorems on such runs, and
-- on the thread left alone, at it.
use linux_pcie_dma.Common.{
  false, ◌∷◌, ℕ, List, some, All, ◌<◌, ◌^◌, [], ◌+◌, ◌≤◌, ◌≡◌, refl, ◌++◌, arith, ◌*◌,
}
use mathlib.Core.List.{map}
use linux_pcie_dma.Registers.{num_possible_virtines, rq_tail_offset_reg, doorbell_reg}
use linux_pcie_dma.Fifo.{Fifo}
use linux_pcie_dma.RingQueue.{pop_head, insert_tail, reset_queue_pointers}
use linux_pcie_dma.Device.{VirtineFpgaDevice, DeviceState, Holds}
use linux_pcie_dma.Device.Effects.{dma_writes, host_stores, num_threads, interrupts}
use linux_pcie_dma.Device.Realize.{virtine_fpga_realize, IsZeroed, virtine_fpga_realize_lem}
use linux_pcie_dma.Device.Mmio.{virtine_fpga_mmio_write}
use linux_pcie_dma.Device.Machine.{
  lock, test_cleans, begin, reset_doorbell, pop, copy, move, settle, decide, lock_iothread, raise,
  writes, Machine, dispatch, access, signal_bell, return, by_cleaner, by_guest, Reach, start, later,
  started, asleep,
}
use linux_pcie_dma.Device.Machine.Accounts.{Honest, restored, in_hand, pending}
use linux_pcie_dma.Device.Machine.Accounts.Flow.{Within}
use linux_pcie_dma.Device.Machine.Interrupts.{num_restored}
use linux_pcie_dma.Device.Machine.Interrupts.Counter.{Steady, uncounted, unreset}
use linux_pcie_dma.Device.Machine.Snapshot.{Settled, copied_from}
use linux_pcie_dma.Device.Machine.Service.{realized, KeepsPromises, service}
use linux_pcie_dma.Device.Machine.Alone.{num_steps, alone_ends}
use linux_pcie_dma.Device.Machine.Batch.{CleanerSteps, no_more, and_then}
use linux_pcie_dma.Device.Machine.Rest.{IsAlone}
use linux_pcie_dma.Device.Machine.Rest.Restored.{all_restored}
use linux_pcie_dma.RingQueue.Invariant.{Represents}
use linux_pcie_dma.Driver.Irq.{fetch_clean_virtines}
use linux_pcie_dma.Driver.Irq.Bounds.{numbered, Inside}
use linux_pcie_dma.System.{System, device_bus}
use linux_pcie_dma.System.Handler.Returned.{system_at, all_returned}
use linux_pcie_dma.Samples.{loaded_device, state_of, idle_device, zeroed_queue}

abbrev allocated_device : VirtineFpgaDevice
allocated_device = record idle_device { rq = zeroed_queue 1000; cq = zeroed_queue 2000 }

abbrev at_rest : DeviceState
at_rest = realized 0x9000 allocated_device 0 0

abbrev Serviced : Type 0
Serviced = (m : Machine) × Reach at_rest m

-- The guest hands over the virtine 0x6000 and rings; the thread restores it and raises an interrupt.
serviced : Serviced
unfolding virtine_fpga_realize reset_queue_pointers pop_head insert_tail virtine_fpga_mmio_write
serviced =
    let r1 : Reach at_rest _ =
      later
        (later (later start (by_guest (dispatch (writes rq_tail_offset_reg 0x6000) refl refl refl)))
          (by_guest (access (writes rq_tail_offset_reg 0x6000) refl refl refl)))
        (by_guest (return refl refl)) in
    let r2 =
      later
        (later (later r1 (by_guest (dispatch (writes (rq_tail_offset_reg + 4) 0) refl refl refl)))
          (by_guest (access (writes (rq_tail_offset_reg + 4) 0) refl refl refl)))
        (by_guest (return refl refl)) in
    let r3 =
      later
        (later (later r2 (by_guest (dispatch (writes doorbell_reg 1) refl refl refl)))
          (by_guest (access (writes doorbell_reg 1) refl refl refl)))
        (by_guest (signal_bell refl refl)) in
    let r4 =
      later
        (later
          (later
            (later
              (later (later r3 (by_cleaner (lock refl refl refl)))
                (by_cleaner (test_cleans refl refl refl refl)))
              (by_cleaner (begin refl refl)))
            (by_cleaner (reset_doorbell refl refl)))
          (by_cleaner (pop 0x6000 refl refl refl)))
        (by_cleaner (copy 0x6000 refl refl)) in
    let r5 =
      later
        (later
          (later
            (later (later r4 (by_cleaner (move 0x6000 refl refl))) (by_cleaner (settle refl refl)))
            (by_cleaner (decide refl refl)))
          (by_guest (return refl refl)))
        (by_cleaner (lock_iothread refl refl refl)) in
    (_, later r5 (by_cleaner (raise refl refl)))

serviced-Within : Within serviced.1
unfolding virtine_fpga_realize reset_queue_pointers pop_head insert_tail virtine_fpga_mmio_write
    serviced
serviced-Within = omega arith

serviced-Steady : Steady serviced.1
unfolding serviced
serviced-Steady = omega arith

serviced-Settled : Settled serviced.1
unfolding serviced
serviced-Settled = omega arith

serviced-Honest : Honest serviced.1
unfolding virtine_fpga_realize reset_queue_pointers pop_head insert_tail virtine_fpga_mmio_write
    serviced
serviced-Honest = omega arith

serviced-KeepsPromises : KeepsPromises serviced.1
serviced-KeepsPromises = record {
  honest = serviced-Honest;
  within = serviced-Within;
  steady = serviced-Steady;
  settled = serviced-Settled;
}

allocated_device-IsZeroed : IsZeroed allocated_device
allocated_device-IsZeroed = record {
  rq_placed = omega arith;
  cq_placed = omega arith;
  rq_zeroed = refl;
  cq_zeroed = refl;
  running = refl;
}

service_example :
    (dirty : Fifo) × (clean : Fifo) × Holds serviced.0.device.fpga dirty clean
    × (serviced.0.accepted
        ≡ ((serviced.0.fetched ++ clean) ++ pending serviced.0.cleaner)
          ++ (in_hand serviced.0.cleaner ++ dirty))
    × (dma_writes serviced.0.asked ≡ map (copied_from 0x9000 8) (restored serviced.0.asked))
    × (host_stores ((virtine_fpga_realize false 0x9000 allocated_device).1 ++ serviced.0.asked)
        ≡ (0x9000, 0xfeedbeaddeadbeef) ∷ [])
    × (num_threads (virtine_fpga_realize false 0x9000 allocated_device).1 ≡ 1)
    × (interrupts serviced.0.asked
          + serviced.0.device.fpga.num_virtines_cleaned_already
          + uncounted serviced.0.cleaner
        ≡ num_restored serviced.0.asked + unreset serviced.0.cleaner 1)
    × (serviced.0.device.fpga.num_virtines_cleaned_already ≤ 1)
service_example =
    service 0x9000 0 0 allocated_device serviced.1 allocated_device-IsZeroed serviced-KeepsPromises

serviced-IsAlone : IsAlone serviced.0
unfolding virtine_fpga_realize virtine_fpga_mmio_write serviced
serviced-IsAlone = record { running = refl; guest = refl; unload = refl }

serviced-words : All (λ v. v < 2 ^ 64) serviced.0.accepted
unfolding virtine_fpga_realize virtine_fpga_mmio_write serviced
serviced-words = (omega arith, tt)

all_restored_example :
    (t : Machine) × CleanerSteps serviced.0 t
    × (t.cleaner ≡ asleep)
    × Represents t.device.fpga.rq []
    × (t.accepted ≡ serviced.0.accepted)
    × (restored t.asked ≡ serviced.0.accepted)
unfolding serviced
all_restored_example =
    all_restored serviced.1
      (virtine_fpga_realize_lem 0x9000 allocated_device allocated_device-IsZeroed).0 serviced-Honest
      serviced-IsAlone refl

all_returned_example :
    (t : Machine) × CleanerSteps serviced.0 t
    × (t.cleaner ≡ asleep)
    × (restored t.asked ≡ serviced.0.accepted)
    × (got : List ℕ) × (after : System) × (fetch_clean_virtines device_bus
          (num_possible_virtines + 1)
          (system_at t)
        ≡ some (numbered 0 got, after))
    × Inside (numbered 0 got)
    × (serviced.0.fetched ++ got ≡ serviced.0.accepted)
    × Holds after.device.fpga [] []
unfolding serviced
all_returned_example =
    all_returned serviced.1
      (virtine_fpga_realize_lem 0x9000 allocated_device allocated_device-IsZeroed).0 serviced-Honest
      serviced-Within serviced-words serviced-IsAlone refl

-- The thread's first two steps.
abbrev two_steps : (t : Machine) × CleanerSteps (started (state_of loaded_device)) t
two_steps = (_, and_then (and_then no_more (lock refl refl refl)) (test_cleans refl refl refl refl))

alone_ends_example : num_steps two_steps.1 ≤ 19 + 9 * 100
alone_ends_example = alone_ends two_steps.1 ((tt, refl), refl)
