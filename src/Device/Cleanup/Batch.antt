-- ===== src/Device/Cleanup/Batch.antt =====
-- What one batch of the clean-up thread does to a device whose queues stand for FIFOs,
-- qemu-fpga-char/virtine_fpga.c:327-397.
use linux_pcie_dma.Common.{
  ◌+◌, ◌*◌, ◌<◌, ◌≡◌, refl, ap, ◌∙◌, true, false, some, List, [], ◌∷◌, ◌++◌, arith, length, take,
  length-append,
}
use mathlib.Core.List.{map, append-nil}
use mathlib.Core.Path.{subst}
use linux_pcie_dma.Registers.{num_possible_virtines}
use linux_pcie_dma.Fifo
use linux_pcie_dma.Fifo.{Fifo, Nonzero}
use linux_pcie_dma.Fifo.Laws.{insert_all-eq-take}
use linux_pcie_dma.RingQueue.{pop_head}
use linux_pcie_dma.RingQueue.Invariant.{Stores, TellsFull, Represents, Nonzero-TellsFull}
use linux_pcie_dma.RingQueue.Pop.{pop_head_zero}
use linux_pcie_dma.Device.{VirtineFpgaDevice, Holds}
use linux_pcie_dma.Device.Effects.{Effect, dma_writes, interrupts}
use linux_pcie_dma.Device.Cleanup.{process_batch}
use linux_pcie_dma.Device.Cleanup.Rounds.{
  restore, restore-eq, IsCounting, processing_after, IsReady, CleansAll, clean_ready_stop,
  clean_ready-CleansAll,
}

-- Enough fuel: a batch ends whenever its ready queue tells full from empty.
process_batch-CleansAll :
    (fpga : VirtineFpgaDevice) (dirty rest clean : Fifo)
    → IsReady fpga dirty rest clean
    → (after : VirtineFpgaDevice) × (effects : List Effect) × (process_batch fpga
        ≡ some (after, effects))
      × CleansAll
          (record fpga { is_card_processing = true; doorbell = false })
          dirty
          (Fifo.pop rest).1
          clean
          after
          effects
unfolding process_batch
process_batch-CleansAll fpga dirty rest clean r =
    clean_ready-CleansAll (num_possible_virtines + 1)
      (record fpga { is_card_processing = true; doorbell = false }) dirty rest clean
      (omega (arith, r.ready.fits, length-append dirty rest))
      (record {
        ready = r.ready;
        told = r.told;
        nonzero = r.nonzero;
        stops = r.stops;
        completed = r.completed;
        counting = record { below = r.counting.below; word = r.counting.word };
      })

-- A batch ends. It takes every dirty virtine, oldest first, copies the whole snapshot over each one
-- exactly once, and appends them to the clean ones, of which the first hundred are kept. It raises
-- an interrupt for every `batch_factor` virtines cleaned, carrying the remainder over, and leaves
-- the doorbell off and the settings as they were. This holds for a counter below the batch factor.
pub process_batch_lem :
    (fpga : VirtineFpgaDevice) (dirty clean : Fifo)
    → Holds fpga dirty clean
    → IsCounting fpga
    → (after : VirtineFpgaDevice) × (effects : List Effect) × (process_batch fpga
        ≡ some (after, effects))
      × Holds after [] (take num_possible_virtines (clean ++ dirty))
      × (dma_writes effects ≡ map (restore fpga) dirty)
      × (interrupts effects * fpga.batch_factor + after.num_virtines_cleaned_already
          ≡ fpga.num_virtines_cleaned_already + length dirty)
      × (after.num_virtines_cleaned_already < after.batch_factor)
      × (after.doorbell ≡ false)
      × (after.is_card_processing ≡ processing_after true dirty)
      × (restore after ≡ restore fpga)
      × (after.batch_factor ≡ fpga.batch_factor)
      × (after.stopping ≡ fpga.stopping)
unfolding Fifo.pop
process_batch_lem fpga dirty clean r c =
    let (after, effects, done, all) = process_batch-CleansAll fpga dirty [] clean (record {
      ready = rw append-nil r.ready.stores;
      told = rw append-nil (Nonzero-TellsFull dirty r.ready.nonzero);
      nonzero = r.ready.nonzero;
      stops = refl;
      completed = r.completed;
      counting = c;
    }) in
    (
      after,
      effects,
      done,
      record {
        ready = record { stores = all.ready; nonzero = tt };
        completed =
            subst (Represents after.cq) (insert_all-eq-take clean dirty r.completed.stores.fits)
              all.completed;
      },
      all.copied,
      all.counted,
      all.counting.below,
      all.config.doorbell,
      all.processing,
      restore-eq all.config,
      all.config.batch_factor,
      all.config.stopping,
    )

-- An address 0 in the ready queue, while the queue is not full or a virtine stands before it, ends
-- the batch: only the virtines before it are restored and put among the clean ones. Those behind it
-- stay in the ready queue, and the doorbell is off, so that they wait for another ring.
process_batch_zero :
    (fpga : VirtineFpgaDevice) (dirty later clean : Fifo)
    → Stores fpga.rq (dirty ++ (0 ∷ later))
    → TellsFull (dirty ++ (0 ∷ later))
    → Nonzero dirty
    → Represents fpga.cq clean
    → IsCounting fpga
    → (after : VirtineFpgaDevice) × (effects : List Effect) × (process_batch fpga
        ≡ some (after, effects))
      × Stores after.rq later
      × Represents after.cq (take num_possible_virtines (clean ++ dirty))
      × (dma_writes effects ≡ map (restore fpga) dirty)
      × (after.doorbell ≡ false)
unfolding Fifo.pop
process_batch_zero fpga dirty later clean r told nonzero completed c =
    let (after, effects, done, all) = process_batch-CleansAll fpga dirty (0 ∷ later) clean (record {
      ready = r;
      told = told;
      nonzero = nonzero;
      stops = refl;
      completed = completed;
      counting = c;
    }) in
    (
      after,
      effects,
      done,
      all.ready,
      subst (Represents after.cq) (insert_all-eq-take clean dirty completed.stores.fits)
          all.completed,
      all.copied,
      all.config.doorbell,
    )

-- A ready queue of a hundred elements, the oldest of which is the address 0, looks empty: a batch
-- gets nothing out of it and leaves it as it is, so that the ninety-nine others are never cleaned,
-- however often the doorbell rings.
pub process_batch_stuck :
    (fpga : VirtineFpgaDevice) (behind : Fifo)
    → Stores fpga.rq (0 ∷ behind)
    → length behind + 1 ≡ num_possible_virtines
    → process_batch fpga ≡ some (record fpga { is_card_processing = true; doorbell = false }, [])
unfolding process_batch
process_batch_stuck fpga behind r full =
    let stuck : pop_head fpga.rq ≡ (0, fpga.rq) = pop_head_zero behind r full in
    let begun : VirtineFpgaDevice = record fpga { is_card_processing = true; doorbell = false } in
    clean_ready_stop num_possible_virtines begun (ap (λ p. p.0) stuck)
    ∙ ap (λ p. some (record begun { rq = p.1 }, [])) stuck
