-- ===== src/RingQueue/Run.antt =====
-- Histories of calls on a ring queue, and the walk of a pointer round its buffer,
-- qemu-fpga-char/virtine_fpga.c:568-667.
use linux_pcie_dma.Common.{ℕ, ◌+◌, ◌≤◌, ◌<◌, ◌≡◌, ◌≢◌, refl, List, [], ◌∷◌, arith, All, true, false}
use linux_pcie_dma.Registers.{num_possible_virtines}
use linux_pcie_dma.Fifo
use linux_pcie_dma.Fifo.{Fifo, Nonzero}
use linux_pcie_dma.Fifo.Laws.{pop-Nonzero, insert-Nonzero}
use linux_pcie_dma.RingQueue.{
  VirtineRingQueue, null, within, next_element, peek_previous_element, pop_head, insert_tail,
}
use linux_pcie_dma.RingQueue.Invariant.{Stores, TellsFull, Represents, Nonzero-TellsFull}
use linux_pcie_dma.RingQueue.Pop.{pop_head-Stores}
use linux_pcie_dma.RingQueue.Insert.{insert_tail-Stores}

pub data Call : Type 0 where
  pops : Call
  inserts : ℕ → Call

-- What the pops of a history return, by the code and by the FIFO.
unfoldable pub run : VirtineRingQueue → List Call → List ℕ
run queue [] = []
run queue (pops ∷ calls) = (pop_head queue).0 ∷ run (pop_head queue).1 calls
run queue (inserts x ∷ calls) = run (insert_tail queue x).1 calls

unfoldable pub run_fifo : Fifo → List Call → List ℕ
run_fifo q [] = []
run_fifo q (pops ∷ calls) = (Fifo.pop q).0 ∷ run_fifo (Fifo.pop q).1 calls
run_fifo q (inserts x ∷ calls) = run_fifo (Fifo.insert q x) calls

abbrev pub InsertsNonzero : Call → Type 0
InsertsNonzero pops = Unit
InsertsNonzero (inserts x) = 0 < x

-- The FIFO is never full with an oldest element of 0, neither now nor before a later call.
abbrev pub StaysTold : Fifo → List Call → Type 0
StaysTold xs [] = Unit
StaysTold xs (pops ∷ calls) = TellsFull xs × StaysTold (Fifo.pop xs).1 calls
StaysTold xs (inserts x ∷ calls) = TellsFull xs × StaysTold (Fifo.insert xs x) calls

-- No history of pops and inserts tells a ring queue from the bounded FIFO whose elements it stores:
-- all pops return the same values. Any elements may be inserted, 0 among them, as long as the FIFO
-- is never full with a 0 as its oldest element when a call is made.
pub run_refines_all :
    (calls : List Call) {queue : VirtineRingQueue} (xs : Fifo)
    → Stores queue xs
    → StaysTold xs calls
    → run queue calls ≡ run_fifo xs calls
unfolding run run_fifo
run_refines_all [] xs r told = refl
run_refines_all (pops ∷ calls) xs r told =
    let (value, rest) = pop_head-Stores xs r told.0 in
    rw (value, run_refines_all calls (Fifo.pop xs).1 rest told.1)
run_refines_all (inserts x ∷ calls) xs r told =
    run_refines_all calls (Fifo.insert xs x) (insert_tail-Stores xs x r told.0).0 told.1

-- Among addresses of virtines the FIFO always tells full from empty.
InsertsNonzero-StaysTold :
    (calls : List Call) (xs : Fifo) → Nonzero xs → All InsertsNonzero calls → StaysTold xs calls
InsertsNonzero-StaysTold [] xs h inserted = tt
InsertsNonzero-StaysTold (pops ∷ calls) xs h inserted = (
  Nonzero-TellsFull xs h,
  InsertsNonzero-StaysTold calls (Fifo.pop xs).1 (pop-Nonzero xs h) inserted.1,
)
InsertsNonzero-StaysTold (inserts x ∷ calls) xs h inserted = (
  Nonzero-TellsFull xs h,
  InsertsNonzero-StaysTold calls (Fifo.insert xs x) (insert-Nonzero xs x h inserted.0) inserted.1,
)

-- No history of pops and of inserts of nonzero addresses tells a ring queue from the bounded FIFO
-- that it stands for: all pops return the same values.
pub run_refines :
    (calls : List Call) {queue : VirtineRingQueue} (xs : Fifo)
    → Represents queue xs
    → All InsertsNonzero calls
    → run queue calls ≡ run_fifo xs calls
run_refines calls xs r h =
    run_refines_all calls xs r.stores (InsertsNonzero-StaysTold calls xs r.nonzero h)

-- Inside the buffer the next and the previous element undo each other, and neither leaves it.
next_element-peek_previous_element :
    (queue : VirtineRingQueue) (p : ℕ)
    → queue.base_addr ≡ queue.location
    → queue.location ≤ p
    → p < queue.location + num_possible_virtines
    → null < queue.location
    → (peek_previous_element queue (next_element queue p) ≡ p)
      × (next_element queue (peek_previous_element queue p) ≡ p)
      × (within (next_element queue p) queue ≡ true)
      × (within (peek_previous_element queue p) queue ≡ true)
unfolding next_element peek_previous_element
next_element-peek_previous_element queue p based lo hi placed =
    (ground arith, ground arith, ground arith, ground arith)

-- For a pointer that is not in the buffer, where the documentation promises NULL, the next element
-- is the pointer plus one, and never NULL.
pub next_element_outside :
    (queue : VirtineRingQueue) (p : ℕ)
    → queue.base_addr ≡ queue.location
    → within p queue ≡ false
    → (next_element queue p ≡ p + 1) × (next_element queue p ≢ null)
unfolding next_element
next_element_outside queue p based out = (ground arith, ground arith)
