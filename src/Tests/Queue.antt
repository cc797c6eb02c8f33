-- ===== src/Tests/Queue.antt =====
-- Runs and instances for the ring queues and the register map.
use linux_pcie_dma.Common.{◌<◌, ◌≡◌, ◌≢◌, ◌↔◌, refl, List, [], ◌∷◌, arith}
use mathlib.Core.Quot
use linux_pcie_dma.Registers.{num_possible_virtines}
use linux_pcie_dma.Fifo
use linux_pcie_dma.RingQueue.{pop_head, insert_tail}
use linux_pcie_dma.RingQueue.Invariant.{Represents}
use linux_pcie_dma.RingQueue.Pop.{pop_head_refines}
use linux_pcie_dma.RingQueue.Insert.{insert_tail_refines}
use linux_pcie_dma.RingQueue.Run.{Call, pops, inserts, run, run_fifo, run_refines_all}
use linux_pcie_dma.RingQueue.View
use linux_pcie_dma.RingQueue.View.{
  Ring, SamePops, SamePops-iff, View, Fiber, Bounded, pop_value, pop_rest, view_is_fifo,
}
use linux_pcie_dma.Samples.{
  empty_queue-Represents, empty_completed-Represents, empty_queue, queue_of_two, two_virtines,
  queue_of_two-Represents,
}

abbrev history : List Call
history = inserts 0x7000 ∷ inserts 0 ∷ pops ∷ pops ∷ pops ∷ inserts 0x8000 ∷ pops ∷ pops ∷ pops ∷ []

history_pops : run_fifo two_virtines history ≡ 0x100005000 ∷ 0x6000 ∷ 0x7000 ∷ 0 ∷ 0x8000 ∷ 0 ∷ []
unfolding run_fifo Fifo.pop Fifo.insert
history_pops = refl

run_refines_all_example : run (queue_of_two 1000) history ≡ run_fifo two_virtines history
unfolding Fifo.pop Fifo.insert
run_refines_all_example =
    run_refines_all history two_virtines queue_of_two-Represents.stores (omega arith)

insert_tail_refines_example :
    Represents (insert_tail (queue_of_two 1000) 0x7000).1 (Fifo.insert two_virtines 0x7000)
    × ((insert_tail (queue_of_two 1000) 0x7000).0
        ≡ (insert_tail (queue_of_two 1000) 0x7000).1.tail_offset)
    × (((insert_tail (queue_of_two 1000) 0x7000).0 ≢ 1002) ↔ (2 < num_possible_virtines))
insert_tail_refines_example =
    insert_tail_refines two_virtines 0x7000 queue_of_two-Represents (omega arith)

pop_head_refines_example :
    ((pop_head (queue_of_two 1000)).0 ≡ (Fifo.pop two_virtines).0)
    × Represents (pop_head (queue_of_two 1000)).1 (Fifo.pop two_virtines).1
pop_head_refines_example = pop_head_refines two_virtines queue_of_two-Represents

-- A queue from which one address was popped, and one into which the other was put: the same address
-- at other places.
abbrev shifted : Ring
shifted = record {
  queue = (pop_head (queue_of_two 1000)).1;
  contents = (Fifo.pop two_virtines).1;
  represents = (pop_head_refines two_virtines queue_of_two-Represents).1;
}

abbrev fresh : Ring
fresh = record {
  queue = (insert_tail (empty_queue 2000) 0x6000).1;
  contents = Fifo.insert [] 0x6000;
  represents = (insert_tail_refines [] 0x6000 empty_completed-Represents (omega arith)).0;
}

SamePops-iff_example : SamePops shifted fresh ↔ ((Fifo.pop two_virtines).1 ≡ Fifo.insert [] 0x6000)
SamePops-iff_example = SamePops-iff shifted fresh

shifted_like_fresh : (Fifo.pop two_virtines).1 ≡ Fifo.insert [] 0x6000
unfolding Fifo.pop Fifo.insert
shifted_like_fresh = refl

abbrev nothing : Ring
nothing = record { queue = empty_queue 1000; contents = []; represents = empty_queue-Represents }

view_is_fifo_example :
    Bounded (View.contents (Quot.mk shifted))
    × (pop_value (Quot.mk shifted) ≡ (Fifo.pop (View.contents (Quot.mk shifted))).0)
    × (View.contents (pop_rest (Quot.mk shifted)) ≡ (Fifo.pop (View.contents (Quot.mk shifted))).1)
    × (View.contents (View.insert 0x7000 (omega arith) (Quot.mk shifted))
        ≡ Fifo.insert (View.contents (Quot.mk shifted)) 0x7000)
    × (v : View) × (View.contents v ≡ two_virtines)
    × ((u : Fiber two_virtines) → u.0 ≡ v)
view_is_fifo_example =
    view_is_fifo nothing (Quot.mk shifted) two_virtines 0x7000 (omega arith) refl (omega arith)
