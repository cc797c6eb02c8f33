-- ===== src/Samples.antt =====
-- Concrete devices and user memory, on which the tests run the definitions.
use linux_pcie_dma.Common.{
  ℕ, ◌+◌, ◌%◌, ◌≡◌, true, false, List, [], ◌∷◌, refl, arith, replicate, if◌then◌else◌, ◌==◌, ap,
  get_or,
}
use linux_pcie_dma.Registers.{num_possible_virtines}
use linux_pcie_dma.RingQueue.{VirtineRingQueue, reset_queue_pointers, insert_tail}
use linux_pcie_dma.RingQueue.Invariant.{Stores, Represents, reset_queue_pointers-Represents}
use linux_pcie_dma.RingQueue.Insert.{insert_tail_refines}
use linux_pcie_dma.Fifo
use linux_pcie_dma.Device.{VirtineFpgaDevice, DeviceState, Holds}
use linux_pcie_dma.Device.Cleanup.Rounds.{IsCounting}
use linux_pcie_dma.System.{System}
use linux_pcie_dma.System.Snapshot.{Holds64}

-- A queue in a zeroed object, with its buffer at the given place.
abbrev pub zeroed_queue : ℕ → VirtineRingQueue
zeroed_queue place = record {
  base_addr = 0;
  head_offset = 0;
  tail_offset = 0;
  buffer = replicate 100 0;
  location = place;
}

abbrev pub empty_queue : ℕ → VirtineRingQueue
empty_queue place = record (zeroed_queue place) {
  base_addr = place;
  head_offset = place;
  tail_offset = place;
}

abbrev pub two_virtines : List ℕ
two_virtines = 0x100005000 ∷ 0x6000 ∷ []

abbrev pub queue_of_two : ℕ → VirtineRingQueue
queue_of_two place = record (empty_queue place) {
  buffer = 0x100005000 ∷ 0x6000 ∷ replicate 98 0;
  tail_offset = place + 2;
}

pub empty_queue-Represents : Represents (empty_queue 1000) []
unfolding reset_queue_pointers
empty_queue-Represents = reset_queue_pointers-Represents (zeroed_queue 1000) (omega arith) refl

pub empty_completed-Represents : Represents (empty_queue 2000) []
unfolding reset_queue_pointers
empty_completed-Represents = reset_queue_pointers-Represents (zeroed_queue 2000) (omega arith) refl

abbrev queue_of_one : ℕ → VirtineRingQueue
queue_of_one place = record (empty_queue place) {
  buffer = 0x100005000 ∷ replicate 99 0;
  tail_offset = place + 1;
}

queue_of_one-Represents : Represents (queue_of_one 1000) (0x100005000 ∷ [])
unfolding insert_tail Fifo.insert
queue_of_one-Represents =
    (insert_tail_refines {queue = empty_queue 1000} [] 0x100005000 empty_queue-Represents
      (omega arith)).0

pub queue_of_two-Represents : Represents (queue_of_two 1000) two_virtines
unfolding insert_tail Fifo.insert
queue_of_two-Represents =
    (insert_tail_refines {queue = queue_of_one 1000} (0x100005000 ∷ []) 0x6000
      queue_of_one-Represents (omega arith)).0

queue_of_one_completed : Represents (queue_of_one 2000) (0x100005000 ∷ [])
unfolding insert_tail Fifo.insert
queue_of_one_completed =
    (insert_tail_refines {queue = empty_queue 2000} [] 0x100005000 empty_completed-Represents
      (omega arith)).0

queue_of_two_completed : Represents (queue_of_two 2000) two_virtines
unfolding insert_tail Fifo.insert
queue_of_two_completed =
    (insert_tail_refines {queue = queue_of_one 2000} (0x100005000 ∷ []) 0x6000
      queue_of_one_completed (omega arith)).0

-- What is behind the address 0 in a full ready queue, and that queue.
abbrev pub behind_zero : List ℕ
behind_zero = replicate 99 0x6000

abbrev pub full_queue : ℕ → VirtineRingQueue
full_queue place = record (empty_queue place) { buffer = 0 ∷ behind_zero }

pub full_queue-Stores : Stores (full_queue 1000) (0 ∷ behind_zero)
full_queue-Stores = record {
  head_index = 0;
  in_range = omega arith;
  placed = omega arith;
  based = refl;
  head = refl;
  tail = refl;
  sized = refl;
  fits = omega arith;
  cells = λ k h.
      let same : (0 + k) % num_possible_virtines ≡ k = omega arith in
      ap (λ i. get_or (0 ∷ behind_zero) i 0) same;
}

-- A realized device, one with two virtines to clean, and one with two clean virtines.
abbrev pub idle_device : VirtineFpgaDevice
idle_device = record {
  rq = empty_queue 1000;
  doorbell = false;
  is_card_processing = false;
  cq = empty_queue 2000;
  batch_factor = 2;
  num_virtines_cleaned_already = 1;
  snapshot_size = 8;
  snapshot_addr = 0x9000;
  stopping = false;
}

abbrev pub loaded_device : VirtineFpgaDevice
loaded_device = record idle_device { rq = queue_of_two 1000; doorbell = true }

abbrev pub cleaned_device : VirtineFpgaDevice
cleaned_device = record idle_device { cq = queue_of_two 2000 }

pub idle_device-Holds : Holds idle_device [] []
idle_device-Holds = record {
  ready = empty_queue-Represents;
  completed = empty_completed-Represents;
}

pub loaded_device-Holds : Holds loaded_device two_virtines []
loaded_device-Holds = record {
  ready = queue_of_two-Represents;
  completed = empty_completed-Represents;
}

pub cleaned_device-Holds : Holds cleaned_device [] two_virtines
cleaned_device-Holds = record { ready = empty_queue-Represents; completed = queue_of_two_completed }

pub idle_device-IsCounting : IsCounting idle_device
idle_device-IsCounting = omega arith

pub loaded_device-IsCounting : IsCounting loaded_device
loaded_device-IsCounting = omega arith

abbrev pub state_of : VirtineFpgaDevice → DeviceState
state_of fpga = record { fpga = fpga; split_return = 0; split_write = 0 }

abbrev pub system_of : VirtineFpgaDevice → System
system_of fpga = record { device = state_of fpga; asked = [] }

-- User memory with 0x100005000 at 64 and 0x6000 at 72; it is 0 elsewhere.
abbrev pub user_memory : ℕ → ℕ × ℕ
user_memory address =
    if address == 64
    then (0, 0x5000)
    else if address == 68
    then (0, 1)
    else if address == 72
    then (0, 0x6000)
    else (0, 0)

pub user_memory_first : Holds64 user_memory 64 0x100005000
user_memory_first = record { word = omega arith; low = refl; high = refl }

pub user_memory_second : Holds64 user_memory 72 0x6000
user_memory_second = record { word = omega arith; low = refl; high = refl }
