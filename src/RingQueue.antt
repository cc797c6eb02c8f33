-- ===== src/RingQueue.antt =====
-- struct virtine_ring_queue and its operations, qemu-fpga-char/virtine_fpga.c:59-71 and 546-667.
-- A `hwaddr *` is a number that counts in units of `sizeof(hwaddr)`, so that `p + 1` is the typed
-- pointer arithmetic of the source, and NULL is 0. `location` is `&queue->buffer[0]`, which the
-- object's place in memory fixes and no operation changes.
pub mod Invariant
pub mod Pop
pub mod Insert
pub mod Run
pub mod View
pub mod Filled
use linux_pcie_dma.Common.{
  ℕ, ◌+◌, ◌-◌, Bool, not, ◌&&◌, ◌||◌, List, leb, ◌==◌, if◌then◌else◌, get_or, set,
}
use linux_pcie_dma.Registers.{num_possible_virtines}

pub record VirtineRingQueue : Type 0 where
  pub base_addr : ℕ
  pub head_offset : ℕ
  pub tail_offset : ℕ
  pub buffer : List ℕ
  pub location : ℕ

abbrev pub null : ℕ
null = 0

-- `*p` for a pointer into the buffer; `RingQueue.Invariant` shows that each one read is inside.
abbrev pub load : VirtineRingQueue → ℕ → ℕ
load queue p = get_or queue.buffer (p - queue.location) 0

-- `*p = v`
abbrev pub store : VirtineRingQueue → ℕ → ℕ → VirtineRingQueue
store queue p v = record queue { buffer = set queue.buffer (p - queue.location) v }

unfoldable pub reset_queue_pointers : VirtineRingQueue → VirtineRingQueue
reset_queue_pointers queue =
    let buffer_base = queue.location in
    record queue { base_addr = buffer_base; head_offset = buffer_base; tail_offset = buffer_base }

unfoldable pub end_of_queue : VirtineRingQueue → ℕ
end_of_queue queue = queue.location + (num_possible_virtines - 1)

unfoldable pub within : ℕ → VirtineRingQueue → Bool
unfolding end_of_queue
within p queue = leb queue.base_addr p && leb p (end_of_queue queue)

-- The NULL that the first test stores is overwritten by both branches of the second.
unfoldable pub next_element : VirtineRingQueue → ℕ → ℕ
unfolding end_of_queue within
next_element queue p =
    let ret : ℕ = null in
    let ret : ℕ = if not (within p queue) then null else ret in
    let ret : ℕ = if p == end_of_queue queue then queue.base_addr else p + 1 in ret

-- Below NULL, where the subtraction would wrap, no pointer lies.
unfoldable pub peek_previous_element : VirtineRingQueue → ℕ → ℕ
unfolding end_of_queue within
peek_previous_element queue p =
    let ret : ℕ = null in
    let ret : ℕ = if not (within p queue) then null else ret in
    let ret : ℕ = if p == queue.base_addr then end_of_queue queue else p - 1 in ret

-- The value fetched, and the queue after the call.
unfoldable pub pop_head : VirtineRingQueue → ℕ × VirtineRingQueue
unfolding next_element
pop_head queue =
    let ret = load queue queue.head_offset in
    if not (queue.tail_offset == queue.head_offset) || not (load queue queue.head_offset == 0)
    then (let zeroed = store queue queue.head_offset 0 in
        (ret, record zeroed { head_offset = next_element zeroed zeroed.head_offset }))
    else (ret, queue)

-- The pointer returned, and the queue after the call.
unfoldable pub insert_tail : VirtineRingQueue → ℕ → ℕ × VirtineRingQueue
unfolding next_element
insert_tail queue to_insert =
    if not (queue.head_offset == queue.tail_offset) || (load queue queue.tail_offset == 0)
    then (let stored = store queue queue.tail_offset to_insert in
        let moved = next_element stored stored.tail_offset in
        (moved, record stored { tail_offset = moved }))
    else (queue.tail_offset, queue)
