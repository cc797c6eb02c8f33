-- ===== src/RingQueue/Invariant.antt =====
-- When a ring queue is well formed and which FIFO it stands for.
use linux_pcie_dma.Common.{
  ℕ, ◌+◌, ◌-◌, ◌%◌, ◌≤◌, ◌<◌, ◌≡◌, refl, [], arith, length, get_or, replicate, get_or-replicate,
  ◌⊎◌, inl, inr, ◌∷◌, length-replicate,
}
use linux_pcie_dma.Registers.{num_possible_virtines}
use linux_pcie_dma.Fifo.{Fifo, Nonzero}
use linux_pcie_dma.RingQueue.{VirtineRingQueue, null, reset_queue_pointers}

-- Beginning at HEAD and going round, the cells hold the elements of the FIFO, and then zeros.
pub record Stores (queue : VirtineRingQueue) (xs : Fifo) : Type 0 where
  pub head_index : ℕ
  pub in_range : head_index < num_possible_virtines
  pub placed : null < queue.location
  pub based : queue.base_addr ≡ queue.location
  pub head : queue.head_offset ≡ queue.location + head_index
  pub tail : queue.tail_offset ≡ queue.location + (head_index + length xs) % num_possible_virtines
  pub sized : length queue.buffer ≡ num_possible_virtines
  pub fits : length xs ≤ num_possible_virtines
  pub cells :
      (k : ℕ)
      → k < num_possible_virtines
      → get_or queue.buffer ((head_index + k) % num_possible_virtines) 0 ≡ get_or xs k 0

-- HEAD = TAIL with a zero cell is the empty queue, and with any other cell the full one. So these
-- are the FIFOs that the two tests of the source tell apart from an empty one.
abbrev pub TellsFull : Fifo → Type 0
TellsFull xs = (length xs < num_possible_virtines) ⊎ (0 < get_or xs 0 0)

-- A queue that stores addresses of virtines, which are never 0.
pub record Represents (queue : VirtineRingQueue) (xs : Fifo) : Type 0 where
  pub stores : Stores queue xs
  pub nonzero : Nonzero xs

pub Nonzero-TellsFull : (xs : Fifo) → Nonzero xs → TellsFull xs
Nonzero-TellsFull [] h = inl (omega arith)
Nonzero-TellsFull (x ∷ xs) h = inr h.0

-- No operation reads or writes outside the buffer: HEAD and TAIL point into it.
pub in_bounds :
    {queue : VirtineRingQueue} {xs : Fifo}
    → Stores queue xs
    → (queue.head_offset - queue.location < length queue.buffer)
      × (queue.tail_offset - queue.location < length queue.buffer)
      × (queue.location ≤ queue.head_offset)
      × (queue.location ≤ queue.tail_offset)
in_bounds r = omega arith

-- A queue whose buffer is all zeros, as in a device object that was just allocated, stands for the
-- empty FIFO once its pointers are reset.
pub reset_queue_pointers-Represents :
    (queue : VirtineRingQueue)
    → null < queue.location
    → queue.buffer ≡ replicate num_possible_virtines 0
    → Represents (reset_queue_pointers queue) []
unfolding reset_queue_pointers
reset_queue_pointers-Represents queue placed zeroed = record {
  stores = record {
    head_index = 0;
    in_range = omega arith;
    placed = placed;
    based = refl;
    head = omega arith;
    tail = omega arith;
    sized = rw zeroed (length-replicate {A = ℕ} num_possible_virtines 0);
    fits = omega arith;
    cells = λ k h.
        rw zeroed (get_or-replicate num_possible_virtines ((0 + k) % num_possible_virtines) 0);
  };
  nonzero = tt;
}
