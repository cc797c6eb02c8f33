-- ===== src/Device/Cleanup/Rounds.antt =====
-- The loop of a batch, qemu-fpga-char/virtine_fpga.c:347-391, over queues that stand for FIFOs: what
-- one round does to the device, and what all of them do.
use linux_pcie_dma.Common.{
  ℕ, zero, suc, ◌+◌, ◌*◌, ◌<◌, ◌^◌, ◌≡◌, refl, ap, ap₂, sym, ◌∙◌, Bool, false, some, List, [], ◌∷◌,
  ◌++◌, arith, length, inl,
}
use mathlib.Core.List.{map}
use mathlib.Core.Path.{fun_ext, subst}
use linux_pcie_dma.Fifo
use linux_pcie_dma.Fifo.{Fifo, Nonzero}
use linux_pcie_dma.RingQueue.{pop_head}
use linux_pcie_dma.RingQueue.Invariant.{Stores, TellsFull, Represents}
use linux_pcie_dma.RingQueue.Pop.{pop_head-Stores}
use linux_pcie_dma.RingQueue.Insert.{insert_tail_refines}
use linux_pcie_dma.Device.{VirtineFpgaDevice}
use linux_pcie_dma.Device.Effects.{
  Effect, dma_writes, interrupts, dma_writes-append, interrupts-append,
}
use linux_pcie_dma.Device.Cleanup.{clean_virtine, clean_while, clean_ready}

-- What overwrites a virtine: the snapshot, at its full size.
abbrev pub restore : VirtineFpgaDevice → ℕ → ℕ × ℕ × ℕ
restore fpga v = (v, fpga.snapshot_addr, fpga.snapshot_size)

-- The counter of cleaned virtines stays below the batch factor, which is a uint32_t.
pub record IsCounting (fpga : VirtineFpgaDevice) : Type 0 where
  pub below : fpga.num_virtines_cleaned_already < fpga.batch_factor
  pub word : fpga.batch_factor < 2 ^ 32

-- What cleaning does not touch.
pub record IsConfigOf (before after : VirtineFpgaDevice) : Type 0 where
  pub batch_factor : after.batch_factor ≡ before.batch_factor
  pub snapshot_size : after.snapshot_size ≡ before.snapshot_size
  pub snapshot_addr : after.snapshot_addr ≡ before.snapshot_addr
  pub stopping : after.stopping ≡ before.stopping
  pub doorbell : after.doorbell ≡ before.doorbell

-- One virtine is restored, counted, and put among the clean ones.
record CleansOne (before : VirtineFpgaDevice) (v : ℕ) (clean : Fifo)
    (out : VirtineFpgaDevice × List Effect) : Type 0 where
  ready : out.0.rq ≡ before.rq
  completed : Represents out.0.cq (Fifo.insert clean v)
  copied : dma_writes out.1 ≡ restore before v ∷ []
  counted :
      interrupts out.1 * before.batch_factor + out.0.num_virtines_cleaned_already
      ≡ before.num_virtines_cleaned_already + 1
  counting : IsCounting out.0
  idle : out.0.is_card_processing ≡ false
  config : IsConfigOf before out.0

clean_virtine-CleansOne :
    (fpga : VirtineFpgaDevice) (v : ℕ) (clean : Fifo)
    → Represents fpga.cq clean
    → IsCounting fpga
    → 0 < v
    → CleansOne fpga v clean (clean_virtine fpga v)
unfolding clean_virtine
clean_virtine-CleansOne fpga v clean r c pos = ground (arith, (insert_tail_refines clean v r pos).0)

-- Whether anything was cleaned decides the flag at the end.
abbrev pub processing_after : Bool → List ℕ → Bool
processing_after was [] = was
processing_after was (_ ∷ _) = false

-- Every dirty virtine is restored, counted, and put among the clean ones; what is left stays in the
-- ready queue.
pub record CleansAll (before : VirtineFpgaDevice) (dirty left clean : Fifo)
    (after : VirtineFpgaDevice) (effects : List Effect) : Type 0 where
  pub ready : Stores after.rq left
  pub completed : Represents after.cq (Fifo.insert_all clean dirty)
  pub copied : dma_writes effects ≡ map (restore before) dirty
  pub counted :
      interrupts effects * before.batch_factor + after.num_virtines_cleaned_already
      ≡ before.num_virtines_cleaned_already + length dirty
  pub counting : IsCounting after
  pub processing : after.is_card_processing ≡ processing_after before.is_card_processing dirty
  pub config : IsConfigOf before after

-- The snapshot stays the same, so restoring means the same later on.
pub restore-eq :
    {before after : VirtineFpgaDevice} → IsConfigOf before after → restore after ≡ restore before
restore-eq c = fun_ext λ v. ground arith

CleansAll-cons :
    {before middle after : VirtineFpgaDevice} {v : ℕ} {dirty left clean : Fifo}
    {es fs : List Effect}
    → CleansOne before v clean (middle, es)
    → CleansAll middle dirty left (Fifo.insert clean v) after fs
    → CleansAll before (v ∷ dirty) left clean after (es ++ fs)
unfolding Fifo.insert_all
CleansAll-cons {before} {middle} {after} {v} {dirty} {left} {clean} {es} {fs} one all = record {
  ready = all.ready;
  completed = all.completed;
  copied =
      dma_writes-append es fs
      ∙ ap₂ ◌++◌ one.copied (all.copied ∙ ap (λ f. map f dirty) (restore-eq one.config));
  counted =
      let total : interrupts fs * before.batch_factor + after.num_virtines_cleaned_already
          ≡ middle.num_virtines_cleaned_already + length dirty =
        subst
          (λ b.
            interrupts fs * b + after.num_virtines_cleaned_already
            ≡ middle.num_virtines_cleaned_already + length dirty)
          one.config.batch_factor all.counted in
      rw (interrupts-append es fs) (omega (arith, one.counted, total));
  counting = all.counting;
  processing = all.processing ∙ idle_after dirty one.idle;
  config = ground arith;
}
  where
    idle_after :
        (vs : List ℕ)
        → middle.is_card_processing ≡ false
        → processing_after middle.is_card_processing vs ≡ false
    idle_after [] e = e
    idle_after (_ ∷ _) e = refl

-- The device with its ready queue popped, and one round of the loop from there.
abbrev pub popped : VirtineFpgaDevice → VirtineFpgaDevice
popped fpga = record fpga { rq = (pop_head fpga.rq).1 }

pub clean_ready_stop :
    (fuel : ℕ) (fpga : VirtineFpgaDevice)
    → (pop_head fpga.rq).0 ≡ 0
    → clean_ready (suc fuel) fpga ≡ some (popped fpga, [])
unfolding clean_ready clean_while
clean_ready_stop fuel fpga e = ground arith

clean_ready_round :
    (fuel v : ℕ) (fpga after : VirtineFpgaDevice) (effects : List Effect)
    → (pop_head fpga.rq).0 ≡ v
    → 0 < v
    → clean_ready fuel (clean_virtine (popped fpga) v).0 ≡ some (after, effects)
    → clean_ready (suc fuel) fpga ≡ some (after, (clean_virtine (popped fpga) v).1 ++ effects)
unfolding clean_ready clean_while
clean_ready_round fuel v fpga after effects e pos loop = ground arith

CleansAll-popped :
    {fpga after : VirtineFpgaDevice} {dirty left clean : Fifo} {effects : List Effect}
    → CleansAll (popped fpga) dirty left clean after effects
    → CleansAll fpga dirty left clean after effects
CleansAll-popped all = record {
  ready = all.ready;
  completed = all.completed;
  copied = all.copied;
  counted = all.counted;
  counting = all.counting;
  processing = all.processing;
  config = ground arith;
}

-- What the loop starts from: dirty virtines, and then either nothing or an element that is 0.
pub record IsReady (fpga : VirtineFpgaDevice) (dirty rest clean : Fifo) : Type 0 where
  pub ready : Stores fpga.rq (dirty ++ rest)
  pub told : TellsFull (dirty ++ rest)
  pub nonzero : Nonzero dirty
  pub stops : (Fifo.pop rest).0 ≡ 0
  pub completed : Represents fpga.cq clean
  pub counting : IsCounting fpga

-- Enough fuel for the dirty virtines and the last pop: the loop ends, having cleaned all of them.
pub clean_ready-CleansAll :
    (fuel : ℕ) (fpga : VirtineFpgaDevice) (dirty rest clean : Fifo)
    → length dirty < fuel
    → IsReady fpga dirty rest clean
    → (after : VirtineFpgaDevice) × (effects : List Effect) × (clean_ready fuel fpga
        ≡ some (after, effects))
      × CleansAll fpga dirty (Fifo.pop rest).1 clean after effects
unfolding Fifo.pop Fifo.insert_all
clean_ready-CleansAll zero fpga dirty rest clean h r = absurd (omega arith)
clean_ready-CleansAll (suc fuel) fpga [] rest clean h r =
    let (value, left) = pop_head-Stores rest r.ready r.told in
    let c = r.counting in
    let counted : IsCounting (popped fpga) = record { below = c.below; word = c.word } in
    (
      popped fpga,
      [],
      clean_ready_stop fuel fpga (value ∙ r.stops),
      record {
        ready = left;
        completed = r.completed;
        copied = refl;
        counted = omega arith;
        counting = counted;
        processing = refl;
        config = ground arith;
      },
    )
clean_ready-CleansAll (suc fuel) fpga (v ∷ dirty) rest clean h r =
    let (value, left) = pop_head-Stores (v ∷ (dirty ++ rest)) r.ready r.told in
    let c = r.counting in
    let one =
      clean_virtine-CleansOne (popped fpga) v clean r.completed
        (record { below = c.below; word = c.word }) r.nonzero.0 in
    let middle : VirtineFpgaDevice = (clean_virtine (popped fpga) v).0 in
    let (after, effects, loop, all) =
      clean_ready-CleansAll fuel middle dirty rest (Fifo.insert clean v) (omega arith) (record {
        ready = subst (λ q. Stores q (dirty ++ rest)) (sym one.ready) left;
        told = inl (omega (arith, r.ready.fits));
        nonzero = r.nonzero.1;
        stops = r.stops;
        completed = one.completed;
        counting = one.counting;
      }) in
    (
      after,
      _,
      clean_ready_round fuel v fpga after effects value r.nonzero.0 loop,
      CleansAll-popped (CleansAll-cons one all),
    )
