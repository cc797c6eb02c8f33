-- ===== src/Device/Cleanup/Ends.antt =====
-- A batch of the clean-up thread ends on every device, qemu-fpga-char/virtine_fpga.c:348-393.
use linux_pcie_dma.Common.{
  ℕ, zero, suc, ◌+◌, ◌<◌, ◌≤◌, ◌≡◌, refl, ap, some, List, [], ◌++◌, arith, length, true, false,
  ◌==◌, Bool-cases, inl, inr,
}
use linux_pcie_dma.Registers.{num_possible_virtines}
use linux_pcie_dma.RingQueue.{pop_head}
use linux_pcie_dma.RingQueue.Filled.{num_filled, num_filled-le, one_if_filled, num_filled-pop_head}
use linux_pcie_dma.Device.{VirtineFpgaDevice}
use linux_pcie_dma.Device.Effects.{Effect}
use linux_pcie_dma.Device.Cleanup.{clean_virtine, clean_while, clean_ready, process_batch}

clean_virtine-rq :
    (fpga : VirtineFpgaDevice) (virtine : ℕ) → (clean_virtine fpga virtine).0.rq ≡ fpga.rq
unfolding clean_virtine
clean_virtine-rq fpga virtine = ground arith

one_filled : (virtine : ℕ) → virtine == 0 ≡ false → one_if_filled virtine ≡ 1
one_filled virtine z = rw z refl

-- Each round takes one element that is not 0 out of the ready queue.
clean_while_ends :
    (fuel : ℕ) (fpga : VirtineFpgaDevice) (virtine : ℕ)
    → num_filled fpga.rq.buffer + one_if_filled virtine < fuel
    → (final : VirtineFpgaDevice) × (effects : List Effect) × (clean_while fuel fpga virtine
        ≡ some (final, effects))
unfolding clean_while
clean_while_ends zero fpga virtine f = absurd (omega arith)
clean_while_ends (suc fuel) fpga virtine f = elim (Bool-cases (virtine == 0)) [
  | inl z ↦ (fpga, [], rw (clean_while, z) refl)
  | inr z ↦
      let cleaned = (clean_virtine fpga virtine).0 in
      let popped = pop_head cleaned.rq in
      let fewer = num_filled-pop_head cleaned.rq in
      let same = clean_virtine-rq fpga virtine in
      let (final, effects, rest) =
        clean_while_ends fuel (record cleaned { rq = popped.1 }) popped.0
          (omega (arith, f, fewer, ap (λ q. num_filled q.buffer) same, one_filled virtine z)) in
      (final, (clean_virtine fpga virtine).1 ++ effects, rw (clean_while, z, rest) refl)
]

-- On any device, with whatever numbers in its queues: the fuel of a batch is enough.
pub process_batch_ends :
    (fpga : VirtineFpgaDevice)
    → length fpga.rq.buffer ≤ num_possible_virtines
    → (final : VirtineFpgaDevice) × (effects : List Effect) × (process_batch fpga
        ≡ some (final, effects))
unfolding process_batch clean_ready
process_batch_ends fpga fits =
    let popped = pop_head fpga.rq in
    clean_while_ends (num_possible_virtines + 1)
      (record fpga { is_card_processing = true; doorbell = false; rq = popped.1 }) popped.0
      (omega (arith, num_filled-pop_head fpga.rq, num_filled-le fpga.rq.buffer, fits))
