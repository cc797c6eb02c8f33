-- ===== src/RingQueue/Insert.antt =====
-- insert_tail, qemu-fpga-char/virtine_fpga.c:646-667, against the FIFO.
use linux_pcie_dma.Common.{
  ℕ, ◌+◌, ◌-◌, ◌%◌, ◌<◌, ◌≡◌, ◌≢◌, refl, ap, sym, ◌∙◌, [], ◌∷◌, ◌++◌, ◌↔◌, arith, length, get_or,
  set, get_or-set_self, get_or-set_ne, get_or_past, get_or-append_left, get_or-append_last,
  length-set, length-append,
}
use linux_pcie_dma.Registers.{num_possible_virtines}
use linux_pcie_dma.Fifo
use linux_pcie_dma.Fifo.{Fifo}
use linux_pcie_dma.Fifo.Laws.{insert-room, insert-full, insert-Nonzero}
use linux_pcie_dma.RingQueue.{VirtineRingQueue, insert_tail}
use linux_pcie_dma.RingQueue.Invariant.{Stores, TellsFull, Represents, Nonzero-TellsFull}
use linux_pcie_dma.RingQueue.Pop.{next_element_index}
use native.Mathlib.Decide.{dec_lt, ℕ_discrete}

abbrev tail_index : {queue : VirtineRingQueue} {xs : Fifo} → Stores queue xs → ℕ
tail_index {xs = xs} r = (r.head_index + length xs) % num_possible_virtines

-- The cell under TAIL is free exactly when there is room; in a full queue it is HEAD's.
tail_cell :
    {queue : VirtineRingQueue} (xs : Fifo)
    → Stores queue xs
    → length xs < num_possible_virtines
    → get_or queue.buffer (queue.tail_offset - queue.location) 0 ≡ 0
tail_cell {queue} xs r h =
    ap (λ i. get_or queue.buffer i 0) (omega arith)
    ∙ r.cells (length xs) (omega arith)
    ∙ get_or_past xs (length xs) 0 (omega arith)

tail_cell_full :
    {queue : VirtineRingQueue} (xs : Fifo)
    → Stores queue xs
    → TellsFull xs
    → length xs ≡ num_possible_virtines
    → 0 < get_or queue.buffer (queue.tail_offset - queue.location) 0
tail_cell_full [] r told h = absurd (omega arith)
tail_cell_full {queue} (x ∷ xs) r told h =
    let cell : get_or queue.buffer (queue.tail_offset - queue.location) 0 ≡ x =
      ap (λ i. get_or queue.buffer i 0) (omega arith) ∙ r.cells 0 (omega arith) in
    omega arith

abbrev inserted : VirtineRingQueue → ℕ → ℕ → VirtineRingQueue
inserted queue i x = record queue {
  buffer = set queue.buffer i x;
  tail_offset = queue.location + (i + 1) % num_possible_virtines;
}

insert_tail_room :
    {queue : VirtineRingQueue} (xs : Fifo) (x : ℕ) (r : Stores queue xs)
    → length xs < num_possible_virtines
    → insert_tail queue x ≡ (
      queue.location + (tail_index r + 1) % num_possible_virtines,
      inserted queue (tail_index r) x,
    )
unfolding insert_tail
insert_tail_room {queue} xs x r h = ground (
  arith,
  tail_cell xs r h,
  next_element_index (inserted queue (tail_index r) x) (tail_index r) r.based (omega arith),
)

insert_tail_full :
    {queue : VirtineRingQueue} (xs : Fifo) (x : ℕ)
    → Stores queue xs
    → TellsFull xs
    → length xs ≡ num_possible_virtines
    → insert_tail queue x ≡ (queue.tail_offset, queue)
unfolding insert_tail
insert_tail_full {queue} xs x r told h = ground (arith, tail_cell_full xs r told h)

inserted_cells :
    {queue : VirtineRingQueue} (xs : Fifo) (x : ℕ) (r : Stores queue xs) (k : ℕ)
    → length xs < num_possible_virtines
    → k < num_possible_virtines
    → get_or (set queue.buffer (tail_index r) x) ((r.head_index + k) % num_possible_virtines) 0
      ≡ get_or (xs ++ (x ∷ [])) k 0
inserted_cells {queue} xs x r k room h = elim (ℕ_discrete k (length xs)) [
  | yes e ↦
      ap (λ i. get_or (set queue.buffer (tail_index r) x) i 0) (omega arith)
      ∙ get_or-set_self queue.buffer (tail_index r) x 0 (omega arith)
      ∙ sym (get_or-append_last xs x k 0 e)
  | no ne ↦
      get_or-set_ne queue.buffer (tail_index r) ((r.head_index + k) % num_possible_virtines) x 0
        (omega arith)
      ∙ r.cells k h
      ∙ elim (dec_lt k (length xs)) [
        | yes p ↦ sym (get_or-append_left xs (x ∷ []) k 0 p)
        | no p ↦
            get_or_past xs k 0 (omega arith)
            ∙ sym (get_or_past (xs ++ (x ∷ [])) k 0 (omega (arith, length-append xs (x ∷ []))))
      ]
]

inserted-Stores :
    {queue : VirtineRingQueue} (xs : Fifo) (x : ℕ) (r : Stores queue xs)
    → length xs < num_possible_virtines
    → Stores (inserted queue (tail_index r) x) (xs ++ (x ∷ []))
inserted-Stores {queue} xs x r room = record {
  head_index = r.head_index;
  in_range = r.in_range;
  placed = r.placed;
  based = r.based;
  head = r.head;
  tail = omega (arith, length-append xs (x ∷ []));
  sized = length-set queue.buffer (tail_index r) x ∙ r.sized;
  fits = omega (arith, length-append xs (x ∷ []));
  cells = λ k h. inserted_cells xs x r k room h;
}

-- An insertion puts any element last if there is room and changes nothing if the queue is full with
-- an oldest element that is not 0.
pub insert_tail-Stores :
    {queue : VirtineRingQueue} (xs : Fifo) (x : ℕ)
    → Stores queue xs
    → TellsFull xs
    → Stores (insert_tail queue x).1 (Fifo.insert xs x)
      × ((insert_tail queue x).0 ≡ (insert_tail queue x).1.tail_offset)
      × (((insert_tail queue x).0 ≢ queue.tail_offset) ↔ (length xs < num_possible_virtines))
insert_tail-Stores {queue} xs x r told = elim (dec_lt (length xs) num_possible_virtines) [
  | yes room ↦
      rw (insert_tail_room xs x r room, insert-room xs x room)
        (inserted-Stores xs x r room, refl, ((λ _. room), λ _. omega arith))
  | no full ↦
      let filled : length xs ≡ num_possible_virtines = omega (arith, r.fits) in
      rw (insert_tail_full xs x r told filled, insert-full xs x filled)
        (r, refl, ((λ moved. absurd (moved refl)), λ room. absurd (full room)))
]

-- Inserting a nonzero address puts it last if there is room and changes nothing if the queue is
-- full; the pointer returned is the new TAIL, and it differs from the old one exactly when the
-- address was taken.
pub insert_tail_refines :
    {queue : VirtineRingQueue} (xs : Fifo) (x : ℕ)
    → Represents queue xs
    → 0 < x
    → Represents (insert_tail queue x).1 (Fifo.insert xs x)
      × ((insert_tail queue x).0 ≡ (insert_tail queue x).1.tail_offset)
      × (((insert_tail queue x).0 ≢ queue.tail_offset) ↔ (length xs < num_possible_virtines))
insert_tail_refines xs x r pos =
    let (stored, moved, taken) =
      insert_tail-Stores xs x r.stores (Nonzero-TellsFull xs r.nonzero) in
    (record { stores = stored; nonzero = insert-Nonzero xs x r.nonzero pos }, moved, taken)
