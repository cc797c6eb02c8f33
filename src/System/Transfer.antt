-- ===== src/System/Transfer.antt =====
-- Handing virtines over to the device, and fetching the clean ones in the interrupt handler:
-- fpga_char_write at RQ_TAIL_OFFSET_REG, and fetch_clean_virtines.
use linux_pcie_dma.Common.{
  ℕ, zero, suc, ◌+◌, ◌^◌, ◌<◌, ◌≡◌, refl, some, List, [], ◌∷◌, arith, All, length,
}
use mathlib.Core.List.{append-nil}
use linux_pcie_dma.Registers.Driver
use linux_pcie_dma.Fifo
use linux_pcie_dma.Fifo.{Fifo}
use linux_pcie_dma.RingQueue.Pop.{pop_head_refines}
use linux_pcie_dma.RingQueue.Insert.{insert_tail_refines}
use linux_pcie_dma.Device.{Holds}
use linux_pcie_dma.Device.Mmio.{virtine_fpga_mmio_read, virtine_fpga_mmio_write}
use linux_pcie_dma.Driver.Chardev.{fpga_char_write, read_while, fpga_char_read_kernel, store_words}
use linux_pcie_dma.Driver.Chardev.Transfer.{fpga_char_write_eight}
use linux_pcie_dma.Driver.Irq.Bounds.{
  numbered, Inside, numbered-Inside, fetch_while_stop, fetch_while_round,
}
use linux_pcie_dma.Driver.Irq.{fetch_while, fetch_clean_virtines}
use linux_pcie_dma.System.{System, device_bus}
use linux_pcie_dma.System.Snapshot.{Holds64, joined_halves}

-- All of the device but its queues stays as it was.
pub record IsKept (before after : System) : Type 0 where
  pub batch_factor : after.device.fpga.batch_factor ≡ before.device.fpga.batch_factor
  pub counter :
      after.device.fpga.num_virtines_cleaned_already
      ≡ before.device.fpga.num_virtines_cleaned_already
  pub snapshot_size : after.device.fpga.snapshot_size ≡ before.device.fpga.snapshot_size
  pub snapshot_addr : after.device.fpga.snapshot_addr ≡ before.device.fpga.snapshot_addr
  pub doorbell : after.device.fpga.doorbell ≡ before.device.fpga.doorbell
  pub processing : after.device.fpga.is_card_processing ≡ before.device.fpga.is_card_processing
  pub stopping : after.device.fpga.stopping ≡ before.device.fpga.stopping
  pub asked : after.asked ≡ before.asked

pub IsKept-refl : (s : System) → IsKept s s
IsKept-refl s = ground arith

pub IsKept-trans : {s t u : System} → IsKept s t → IsKept t u → IsKept s u
IsKept-trans k l = ground arith

-- Writing the address of a virtine at RQ_TAIL_OFFSET_REG reports eight bytes and puts the virtine
-- last in the ready queue, if there is room, and changes nothing else of the device.
pub give_virtine_lem :
    (copy_from_user : ℕ → ℕ × ℕ) (s : System) (buffer address : ℕ) (dirty clean : Fifo)
    → Holds s.device.fpga dirty clean
    → Holds64 copy_from_user buffer address
    → 0 < address
    → (after : System) × (fpga_char_write device_bus copy_from_user 3 s buffer 8
          Driver.rq_tail_offset_reg
        ≡ some (8, after))
      × Holds after.device.fpga (Fifo.insert dirty address) clean
      × IsKept s after
unfolding device_bus virtine_fpga_mmio_write
give_virtine_lem copy s buffer address dirty clean r h pos = (
  _,
  fpga_char_write_eight device_bus copy s buffer Driver.rq_tail_offset_reg refl,
  rw (h.low, h.high, joined_halves address h.word)
      (record {
        ready = (insert_tail_refines dirty address r.ready pos).0;
        completed = r.completed;
      }),
  record {
    batch_factor = refl;
    counter = refl;
    snapshot_size = refl;
    snapshot_addr = refl;
    doorbell = refl;
    processing = refl;
    stopping = refl;
    asked = simp append-nil;
  },
)

-- One eight-byte read at CQ_HEAD_OFFSET_REG makes two accesses, and gives the oldest clean virtine,
-- or 0 when there is none.
fetch_one :
    (s : System) (old : ℕ) (dirty clean : Fifo)
    → Holds s.device.fpga dirty clean
    → (Fifo.pop clean).0 < 2 ^ 64
    → (words : List (ℕ × ℕ)) × (after : System) × (fpga_char_read_kernel device_bus 3 s 8
          Driver.cq_head_offset_reg
        ≡ some (8, words, after))
      × (store_words old words ≡ (Fifo.pop clean).0)
      × Holds after.device.fpga dirty (Fifo.pop clean).1
      × IsKept s after
      × (after.device.split_return ≡ 0)
unfolding fpga_char_read_kernel read_while device_bus virtine_fpga_mmio_read
fetch_one s old dirty clean r small =
    let (value, rest) = pop_head_refines clean r.completed in
    (
      _,
      _,
      refl,
      rw value (omega arith),
      record { ready = r.ready; completed = rest },
      record {
        batch_factor = refl;
        counter = refl;
        snapshot_size = refl;
        snapshot_addr = refl;
        doorbell = refl;
        processing = refl;
        stopping = refl;
        asked = refl;
      },
      refl,
    )

-- The loop, which leaves no half of an address behind in the device.
pub fetch_while_lem :
    (fuel : ℕ) (s : System) (old i : ℕ) (dirty clean : Fifo)
    → length clean < fuel
    → Holds s.device.fpga dirty clean
    → All (λ a. a < 2 ^ 64) clean
    → (after : System) × (fetch_while device_bus fuel s old i ≡ some (numbered i clean, after))
      × Holds after.device.fpga dirty []
      × IsKept s after
      × (after.device.split_return ≡ 0)
unfolding Fifo.pop
fetch_while_lem zero s old i dirty clean f r small = absurd (omega arith)
fetch_while_lem (suc fuel) s old i dirty [] f r small =
    let (words, after, read, value, rest, kept, reset) = fetch_one s old dirty [] r (omega arith) in
    (after, fetch_while_stop device_bus fuel s after old i words read value, rest, kept, reset)
fetch_while_lem (suc fuel) s old i dirty (v ∷ clean) f r small =
    let (words, middle, read, value, rest, kept, _) = fetch_one s old dirty (v ∷ clean) r small.0 in
    let (after, loop, done, kept', reset) =
      fetch_while_lem fuel middle v (i + 1) dirty clean (omega arith) rest small.1 in
    (
      after,
      fetch_while_round device_bus fuel s middle after old i v words (numbered (i + 1) clean) read
          value r.completed.nonzero.0 loop,
      done,
      IsKept-trans kept kept',
      reset,
    )

-- While no other access comes between its reads, the interrupt handler ends. It stores every clean
-- virtine once, oldest first, in consecutive elements of its array of a hundred, never outside it;
-- it leaves the completed queue empty and changes nothing else of the device.
pub fetch_clean_virtines_lem :
    (fuel : ℕ) (s : System) (dirty clean : Fifo)
    → length clean < fuel
    → Holds s.device.fpga dirty clean
    → All (λ a. a < 2 ^ 64) clean
    → (after : System) × (fetch_clean_virtines device_bus fuel s ≡ some (numbered 0 clean, after))
      × Inside (numbered 0 clean)
      × Holds after.device.fpga dirty []
      × IsKept s after
unfolding fetch_clean_virtines
fetch_clean_virtines_lem fuel s dirty clean f r small =
    let (after, loop, done, kept, _) = fetch_while_lem fuel s 0 0 dirty clean f r small in
    (after, loop, numbered-Inside 0 clean (omega (arith, r.completed.stores.fits)), done, kept)
