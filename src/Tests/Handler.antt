-- ===== src/Tests/Handler.antt =====
-- A run of the whole device to a completed virtine, and the interrupt handler on it.
use linux_pcie_dma.Common.{◌+◌, ◌^◌, ◌<◌, ◌≡◌, refl, false, [], ◌∷◌, arith, All}
use linux_pcie_dma.Registers.{rq_tail_offset_reg, doorbell_reg}
use linux_pcie_dma.Fifo.{Fifo}
use linux_pcie_dma.RingQueue.{pop_head, insert_tail}
use linux_pcie_dma.Device.{DeviceState}
use linux_pcie_dma.Device.Mmio.{virtine_fpga_mmio_write}
use linux_pcie_dma.Device.Machine.{
  locking, asleep, lock, test_cleans, begin, reset_doorbell, pop, copy, move, settle, decide,
  unlock, outside, plugged, writes, Machine, dispatch, access, signal_bell, return, by_cleaner,
  by_guest, started, Reach, start, later,
}
use linux_pcie_dma.Device.Machine.Accounts.{Honest}
use linux_pcie_dma.Samples.{idle_device, state_of}

-- At rest, with a batch factor that one virtine does not reach.
abbrev idle : DeviceState
idle = state_of (record idle_device { batch_factor = 5 })

abbrev Completed : Type 0
Completed =
    (m : Machine) × (r : Reach idle m) × Honest r
    × All (λ v. v < 2 ^ 64) m.accepted
    × (m.device.fpga.doorbell ≡ false)
    × (m.device.fpga.stopping ≡ false)
    × (m.cleaner ≡ locking)
    × (m.guest ≡ outside)
    × (m.unload ≡ plugged)
    × (m.accepted ≡ 0x6000 ∷ [])
    × (m.fetched ≡ [])

-- The guest hands over the virtine 0x6000 and rings; the thread restores it and goes back.
completed : Completed
unfolding pop_head insert_tail virtine_fpga_mmio_write
completed =
    let r0 : Reach idle (started idle) = start in
    let r1 =
      later
        (later (later r0 (by_guest (dispatch (writes rq_tail_offset_reg 0x6000) refl refl refl)))
          (by_guest (access (writes rq_tail_offset_reg 0x6000) refl refl refl)))
        (by_guest (return refl refl)) in
    let r2 =
      later
        (later (later r1 (by_guest (dispatch (writes (rq_tail_offset_reg + 4) 0) refl refl refl)))
          (by_guest (access (writes (rq_tail_offset_reg + 4) 0) refl refl refl)))
        (by_guest (return refl refl)) in
    let r3 =
      later
        (later
          (later (later r2 (by_guest (dispatch (writes doorbell_reg 1) refl refl refl)))
            (by_guest (access (writes doorbell_reg 1) refl refl refl)))
          (by_guest (signal_bell refl refl)))
        (by_guest (return refl refl)) in
    let r4 =
      (later
        (later
          (later (later r3 (by_cleaner (lock refl refl refl)))
            (by_cleaner (test_cleans refl refl refl refl)))
          (by_cleaner (begin refl refl)))
        (by_cleaner (reset_doorbell refl refl))) in
    let r5 =
      later
        (later
          (later
            (later (later r4 (by_cleaner (pop 0x6000 refl refl refl)))
              (by_cleaner (copy 0x6000 refl refl)))
            (by_cleaner (move 0x6000 refl refl)))
          (by_cleaner (settle refl refl)))
        (by_cleaner (decide refl refl)) in
    let r6 = later (later r5 (by_cleaner (pop 0 refl refl refl))) (by_cleaner (unlock refl refl)) in
    (_, r6, ground arith, omega arith, refl, refl, refl, refl, refl, refl, refl)

-- Then the thread goes to sleep, and the handler's first access gets in.
abbrev slept : Machine
slept = record completed.0 { cleaner = asleep }
