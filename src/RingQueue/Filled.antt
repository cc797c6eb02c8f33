-- ===== src/RingQueue/Filled.antt =====
-- How many elements of a ring queue's buffer are not 0, and what pop_head does to the number,
-- qemu-fpga-char/virtine_fpga.c:626-644.
use linux_pcie_dma.Common.{
  ℕ, zero, suc, ◌+◌, ◌-◌, ◌≤◌, ◌≡◌, List, [], ◌∷◌, arith, length, get_or, set, ◌==◌, if◌then◌else◌,
}
use linux_pcie_dma.RingQueue.{VirtineRingQueue, pop_head}

-- The elements of a buffer that are not 0.
abbrev pub num_filled : List ℕ → ℕ
num_filled [] = 0
num_filled (x ∷ xs) = if x == 0 then num_filled xs else suc (num_filled xs)

pub num_filled-le : (xs : List ℕ) → num_filled xs ≤ length xs
num_filled-le [] = omega arith
num_filled-le (x ∷ xs) = ground (arith, num_filled-le xs)

abbrev pub one_if_filled : ℕ → ℕ
one_if_filled x = if x == 0 then 0 else 1

num_filled-set :
    (xs : List ℕ) (i : ℕ) → num_filled (set xs i 0) + one_if_filled (get_or xs i 0) ≡ num_filled xs
num_filled-set [] i = omega arith
num_filled-set (x ∷ xs) zero = ground arith
num_filled-set (x ∷ xs) (suc i) = ground (arith, num_filled-set xs i)

-- A pop takes away what it returns.
pub num_filled-pop_head :
    (queue : VirtineRingQueue)
    → num_filled (pop_head queue).1.buffer + one_if_filled (pop_head queue).0
      ≡ num_filled queue.buffer
unfolding pop_head
num_filled-pop_head queue =
    ground (arith, num_filled-set queue.buffer (queue.head_offset - queue.location))
