-- ===== src/RingQueue/Pop.antt =====
-- pop_head, qemu-fpga-char/virtine_fpga.c:626-644, against the FIFO.
use linux_pcie_dma.Common.{
  ℕ, suc, ◌+◌, ◌-◌, ◌%◌, ◌<◌, ◌≡◌, refl, ap, sym, ◌∙◌, [], ◌∷◌, arith, get_or, set, get_or-set_self,
  get_or-set_ne, get_or_past, length-set, length,
}
use linux_pcie_dma.Registers.{num_possible_virtines}
use linux_pcie_dma.Fifo
use linux_pcie_dma.Fifo.{Fifo}
use linux_pcie_dma.Fifo.Laws.{pop-Nonzero}
use linux_pcie_dma.RingQueue.{VirtineRingQueue, next_element, pop_head}
use linux_pcie_dma.RingQueue.Invariant.{Stores, TellsFull, Represents, Nonzero-TellsFull}
use native.Mathlib.Decide.{dec_lt}

-- `next_element` takes one step round the buffer.
pub next_element_index :
    (queue : VirtineRingQueue) (i : ℕ)
    → queue.base_addr ≡ queue.location
    → i < num_possible_virtines
    → next_element queue (queue.location + i) ≡ queue.location + (i + 1) % num_possible_virtines
unfolding next_element
next_element_index queue i b h = ground arith

-- The cell under HEAD holds the oldest address, or 0.
pub head_cell :
    {queue : VirtineRingQueue} (xs : Fifo)
    → Stores queue xs
    → get_or queue.buffer (queue.head_offset - queue.location) 0 ≡ get_or xs 0 0
head_cell {queue} xs r = ap (λ i. get_or queue.buffer i 0) (omega arith) ∙ r.cells 0 (omega arith)

pop_head_empty : {queue : VirtineRingQueue} → Stores queue [] → pop_head queue ≡ (0, queue)
unfolding pop_head
pop_head_empty r = ground (arith, head_cell [] r)

-- The queue that `pop_head` leaves behind when there is something to pop.
abbrev popped : VirtineRingQueue → ℕ → VirtineRingQueue
popped queue i = record queue {
  buffer = set queue.buffer i 0;
  head_offset = queue.location + (i + 1) % num_possible_virtines;
}

pop_head_cons :
    {queue : VirtineRingQueue} (x : ℕ) (xs : Fifo) (r : Stores queue (x ∷ xs))
    → TellsFull (x ∷ xs)
    → pop_head queue ≡ (x, popped queue r.head_index)
unfolding pop_head
pop_head_cons {queue} x xs r told = ground (
  arith,
  head_cell (x ∷ xs) r,
  next_element_index (popped queue r.head_index) r.head_index r.based r.in_range,
)

-- A full queue whose oldest element is 0 passes for empty.
pub pop_head_zero :
    {queue : VirtineRingQueue} (xs : Fifo)
    → Stores queue (0 ∷ xs)
    → length xs + 1 ≡ num_possible_virtines
    → pop_head queue ≡ (0, queue)
unfolding pop_head
pop_head_zero xs r full = ground (arith, head_cell (0 ∷ xs) r)

popped_cells :
    {queue : VirtineRingQueue} (x : ℕ) (xs : Fifo) (r : Stores queue (x ∷ xs)) (k : ℕ)
    → k < num_possible_virtines
    → get_or
        (set queue.buffer r.head_index 0)
        (((r.head_index + 1) % num_possible_virtines + k) % num_possible_virtines)
        0
      ≡ get_or xs k 0
popped_cells {queue} x xs r k h = elim (dec_lt (suc k) num_possible_virtines) [
  | yes p ↦
      ap (λ i. get_or (set queue.buffer r.head_index 0) i 0) (omega arith)
      ∙ get_or-set_ne queue.buffer r.head_index ((r.head_index + suc k) % num_possible_virtines) 0 0
          (omega arith)
      ∙ r.cells (suc k) p
  | no p ↦
      ap (λ i. get_or (set queue.buffer r.head_index 0) i 0) (omega arith)
      ∙ get_or-set_self queue.buffer r.head_index 0 0 (omega arith)
      ∙ sym (get_or_past xs k 0 (omega arith))
]

-- `pop_head` returns what the FIFO returns and leaves the FIFO's rest behind, whatever the elements
-- are, if the queue is not full or its oldest element is not 0.
pub pop_head-Stores :
    {queue : VirtineRingQueue} (xs : Fifo)
    → Stores queue xs
    → TellsFull xs
    → ((pop_head queue).0 ≡ (Fifo.pop xs).0) × Stores (pop_head queue).1 (Fifo.pop xs).1
unfolding Fifo.pop
pop_head-Stores [] r told = rw (pop_head_empty r) (refl, r)
pop_head-Stores {queue} (x ∷ xs) r told = rw (pop_head_cons x xs r told) (
  refl,
  record {
    head_index = (r.head_index + 1) % num_possible_virtines;
    in_range = omega arith;
    placed = r.placed;
    based = r.based;
    head = refl;
    tail = omega arith;
    sized = length-set queue.buffer r.head_index 0 ∙ r.sized;
    fits = omega arith;
    cells = popped_cells x xs r;
  },
)

-- `pop_head` returns what the FIFO returns and leaves the FIFO's rest behind: the oldest address is
-- taken out, and an empty queue answers 0 and stays empty.
pub pop_head_refines :
    {queue : VirtineRingQueue} (xs : Fifo)
    → Represents queue xs
    → ((pop_head queue).0 ≡ (Fifo.pop xs).0) × Represents (pop_head queue).1 (Fifo.pop xs).1
pop_head_refines xs r =
    let (value, rest) = pop_head-Stores xs r.stores (Nonzero-TellsFull xs r.nonzero) in
    (value, record { stores = rest; nonzero = pop-Nonzero xs r.nonzero })
