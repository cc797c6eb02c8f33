-- ===== src/Device/Machine/Batch.antt =====
-- A batch as one function, `Device.Cleanup`, is what the clean-up thread does when nothing comes
-- between its steps.
use linux_pcie_dma.Common.{
  ℕ, length, ◌≤◌, zero, suc, ◌+◌, ◌<◌, ◌≡◌, refl, sym, ap, ◌∙◌, true, false, ◌||◌, Option, none,
  some, List, [], ◌∷◌, ◌++◌, arith, Bool-cases, inl, inr, ◌==◌, if◌then◌else◌, leb, u32, ◌⊎◌,
}
use mathlib.Core.List.{append_assoc, append-nil}
use mathlib.Core.Path.{subst}
use linux_pcie_dma.Registers.{num_possible_virtines}
use linux_pcie_dma.RingQueue.{pop_head, insert_tail}
use linux_pcie_dma.Device.{VirtineFpgaDevice}
use linux_pcie_dma.Device.Effects.{Effect, pci_dma_write, msi_notify}
use linux_pcie_dma.Device.Cleanup.Ends.{process_batch_ends}
use linux_pcie_dma.Device.Cleanup.{clean_virtine, clean_while, clean_ready, process_batch}
use linux_pcie_dma.Device.Machine.{
  CleanerPc, beginning, popping, holding, deciding, notifying, unlocking, Machine, with_fpga,
  guest_has_iothread, unload_has_iothread, has_room, CleanerStep, begin, reset_doorbell, pop, copy,
  move, settle, decide, lock_iothread, raise, unlock_iothread, recount,
}

-- Steps of the thread alone.
pub data CleanerSteps (m : Machine) : Machine → Type 0 where
  no_more : CleanerSteps m m
  and_then : {t u : Machine} → CleanerSteps m t → CleanerStep t u → CleanerSteps m u

pub CleanerSteps-trans : {m t u : Machine} → CleanerSteps m t → CleanerSteps t u → CleanerSteps m u
CleanerSteps-trans a no_more = a
CleanerSteps-trans a (and_then b st) = and_then (CleanerSteps-trans a b) st

-- The thread alone takes the machine to a place in its code, a device and further effects.
pub record Runs (m : Machine) (pc : CleanerPc) (fpga : VirtineFpgaDevice) (effects : List Effect)
    : Type 0 where
  pub last : Machine
  pub steps : CleanerSteps m last
  pub cleaner : last.cleaner ≡ pc
  pub device : last.device.fpga ≡ fpga
  pub asked : last.asked ≡ m.asked ++ effects
  pub guest : last.guest ≡ m.guest
  pub unload : last.unload ≡ m.unload

abbrev IothreadFree : Machine → Type 0
IothreadFree m = guest_has_iothread m.guest || unload_has_iothread m.unload ≡ false

abbrev settled : Machine → ℕ → Machine
settled m v =
    let fpga = m.device.fpga in
    record (with_fpga m (record fpga {
      num_virtines_cleaned_already = u32 (fpga.num_virtines_cleaned_already + 1);
      cq = (insert_tail fpga.cq v).1;
      is_card_processing = false;
    })) {
      cleaner = deciding;
      asked = m.asked ++ (pci_dma_write v fpga.snapshot_addr fpga.snapshot_size ∷ []);
      dropped = m.dropped ++ (if has_room fpga.cq v then [] else v ∷ []);
    }

settled-CleanerSteps : (m : Machine) (v : ℕ) → m.cleaner ≡ holding v → CleanerSteps m (settled m v)
settled-CleanerSteps m v c =
    and_then (and_then (and_then no_more (copy v c refl)) (move v refl refl)) (settle refl refl)

-- From a virtine in hand to the next pop.
clean_virtine-Runs :
    (m : Machine) (v : ℕ)
    → m.cleaner ≡ holding v
    → IothreadFree m
    → Runs m popping (clean_virtine m.device.fpga v).0 (clean_virtine m.device.fpga v).1
unfolding clean_virtine
clean_virtine-Runs m v c free =
    let s = settled m v in
    elim (Bool-cases (leb s.device.fpga.batch_factor s.device.fpga.num_virtines_cleaned_already)) [
      | inl enough ↦
          let decided : CleanerStep s (record s { cleaner = notifying }) =
            decide refl (rw enough refl) in
          record {
            last =
                record (with_fpga s (record s.device.fpga { num_virtines_cleaned_already = 0 })) {
                  cleaner = popping;
                  asked = s.asked ++ (msi_notify 0 ∷ []);
                };
            steps =
                and_then
                  (and_then
                    (and_then
                      (and_then (and_then (settled-CleanerSteps m v c) decided)
                        (lock_iothread refl free refl))
                      (raise refl refl))
                    (unlock_iothread refl refl))
                  (recount refl refl);
            cleaner = refl;
            device = ground arith;
            asked = ground (
              arith,
              append_assoc m.asked
                  (pci_dma_write v m.device.fpga.snapshot_addr m.device.fpga.snapshot_size ∷ [])
                  (msi_notify 0 ∷ []),
            );
            guest = refl;
            unload = refl;
          }
      | inr few ↦ record {
        last = record s { cleaner = popping };
        steps = and_then (settled-CleanerSteps m v c) (decide refl (rw few refl));
        cleaner = refl;
        device = ground arith;
        asked = ground arith;
        guest = refl;
        unload = refl;
      }
    ]

Option-cases {ℓ} : {A : Type ℓ} (o : Option A) → (o ≡ none) ⊎ ((a : A) × (o ≡ some a))
Option-cases none = inl refl
Option-cases (some a) = inr (a, refl)

-- The device when the next virtine was popped.
abbrev next_device : VirtineFpgaDevice → ℕ → VirtineFpgaDevice
next_device fpga v =
    let cleaned = (clean_virtine fpga v).0 in record cleaned { rq = (pop_head cleaned.rq).1 }

abbrev next_virtine : VirtineFpgaDevice → ℕ → ℕ
next_virtine fpga v = (pop_head (clean_virtine fpga v).0.rq).0

clean_while_stop :
    (fuel v : ℕ) (fpga final : VirtineFpgaDevice) (effects : List Effect)
    → v ≡ 0
    → clean_while (suc fuel) fpga v ≡ some (final, effects)
    → (fpga ≡ final) × (effects ≡ [])
unfolding clean_while
clean_while_stop fuel v fpga final effects z e = ground arith

clean_while_round :
    (fuel v : ℕ) (fpga final : VirtineFpgaDevice) (effects : List Effect)
    → 0 < v
    → clean_while (suc fuel) fpga v ≡ some (final, effects)
    → (rest : List Effect) × (clean_while fuel (next_device fpga v) (next_virtine fpga v)
        ≡ some (final, rest))
      × (effects ≡ (clean_virtine fpga v).1 ++ rest)
unfolding clean_while
clean_while_round fuel v fpga final effects pos e =
    elim (Option-cases (clean_while fuel (next_device fpga v) (next_virtine fpga v))) [
      | inl ends ↦ absurd (ground arith)
      | inr ((final', rest), goes) ↦ (rest, ground arith, ground arith)
    ]

clean_while_zero :
    (fpga final : VirtineFpgaDevice) (v : ℕ) (effects : List Effect)
    → clean_while 0 fpga v ≡ some (final, effects)
    → ⊥
unfolding clean_while
clean_while_zero fpga final v effects e = ground arith

abbrev after_pop : ℕ → CleanerPc
after_pop v = if v == 0 then unlocking else holding v

pop-Runs :
    (m : Machine)
    → m.cleaner ≡ popping
    → Runs m
        (after_pop (pop_head m.device.fpga.rq).0)
        (record m.device.fpga { rq = (pop_head m.device.fpga.rq).1 })
        []
pop-Runs m c = record {
  last = _;
  steps = and_then no_more (pop _ c refl refl);
  cleaner = refl;
  device = refl;
  asked = sym (append-nil m.asked);
  guest = refl;
  unload = refl;
}

Runs-trans :
    {m : Machine} {pc pc' : CleanerPc} {fpga fpga' : VirtineFpgaDevice} {es fs : List Effect}
    → (r : Runs m pc fpga es) → Runs r.last pc' fpga' fs
    → Runs m pc' fpga' (es ++ fs)
Runs-trans {m} {es} {fs} r q = record {
  last = q.last;
  steps = CleanerSteps-trans r.steps q.steps;
  cleaner = q.cleaner;
  device = q.device;
  asked = q.asked ∙ ap (λ l. l ++ fs) r.asked ∙ append_assoc m.asked es fs;
  guest = q.guest ∙ r.guest;
  unload = q.unload ∙ r.unload;
}

-- From a virtine in hand to the next one, or to the end of the loop.
round-Runs :
    (m : Machine) (v : ℕ) (fpga : VirtineFpgaDevice)
    → m.device.fpga ≡ fpga
    → m.cleaner ≡ holding v
    → IothreadFree m
    → Runs m (after_pop (next_virtine fpga v)) (next_device fpga v) (clean_virtine fpga v).1
round-Runs m v fpga d c free =
    let one = clean_virtine-Runs m v c free in
    let popped : Runs one.last (after_pop (next_virtine m.device.fpga v))
        (next_device m.device.fpga v) [] =
      subst
        (λ f. Runs one.last (after_pop (pop_head f.rq).0) (record f { rq = (pop_head f.rq).1 }) [])
        one.device (pop-Runs one.last one.cleaner) in
    let both : Runs m (after_pop (next_virtine m.device.fpga v)) (next_device m.device.fpga v)
        (clean_virtine m.device.fpga v).1 =
      subst (Runs m (after_pop (next_virtine m.device.fpga v)) (next_device m.device.fpga v))
        (append-nil (clean_virtine m.device.fpga v).1) (Runs-trans one popped) in
    subst (λ f. Runs m (after_pop (next_virtine f v)) (next_device f v) (clean_virtine f v).1) d
      both

clean_while-Runs :
    (fuel v : ℕ) (m : Machine) (fpga final : VirtineFpgaDevice) (effects : List Effect)
    → m.device.fpga ≡ fpga
    → m.cleaner ≡ after_pop v
    → IothreadFree m
    → clean_while fuel fpga v ≡ some (final, effects)
    → Runs m unlocking final effects
clean_while-Runs zero v m fpga final effects d c free e =
    absurd (clean_while_zero fpga final v effects e)
clean_while-Runs (suc fuel) v m fpga final effects d c free e = elim (Bool-cases (v == 0)) [
  | inl stops ↦
      let (same, nothing) = clean_while_stop fuel v fpga final effects (ground arith) e in
      record {
        last = m;
        steps = no_more;
        cleaner = ground arith;
        device = d ∙ same;
        asked = rw (nothing, append-nil) refl;
        guest = refl;
        unload = refl;
      }
  | inr goes ↦
      let (rest, loop, all) = clean_while_round fuel v fpga final effects (ground arith) e in
      let round = round-Runs m v fpga d (ground arith) free in
      let later : Runs round.last unlocking final rest =
        clean_while-Runs fuel (next_virtine fpga v) round.last (next_device fpga v) final rest
          round.device round.cleaner (rw (round.guest, round.unload) free) loop in
      subst (Runs m unlocking final) (sym all) (Runs-trans round later)
]

-- The steps of a batch that ends.
batch_runs :
    (m : Machine) (final : VirtineFpgaDevice) (effects : List Effect)
    → m.cleaner ≡ beginning
    → guest_has_iothread m.guest || unload_has_iothread m.unload ≡ false
    → process_batch m.device.fpga ≡ some (final, effects)
    → (t : Machine) × CleanerSteps m t
      × (t.cleaner ≡ unlocking)
      × (t.device.fpga ≡ final)
      × (t.asked ≡ m.asked ++ effects)
unfolding process_batch clean_ready
batch_runs m final effects c free e =
    let fpga = record m.device.fpga { is_card_processing = true; doorbell = false } in
    let ready = record (with_fpga m fpga) { cleaner = popping } in
    let begun : CleanerSteps m ready =
      and_then (and_then no_more (begin c refl)) (reset_doorbell refl refl) in
    let popped = pop-Runs ready refl in
    let rest =
      clean_while-Runs (num_possible_virtines + 1) (pop_head fpga.rq).0 popped.last
        (record fpga { rq = (pop_head fpga.rq).1 }) final effects popped.device popped.cleaner
        (rw (popped.guest, popped.unload) free) e in
    (
      rest.last,
      CleanerSteps-trans begun (CleanerSteps-trans popped.steps rest.steps),
      rest.cleaner,
      rest.device,
      rest.asked ∙ ap (λ l. l ++ effects) (popped.asked ∙ append-nil m.asked),
    )

-- On any device whose ready queue has no more than its hundred places, `process_batch` ends, and the
-- thread alone, from the end of its wait to the unlock, makes exactly its changes to the device and
-- asks QEMU for the same effects in the same order, as long as nobody else holds the iothread lock.
pub process_batch_runs :
    (m : Machine)
    → m.cleaner ≡ beginning
    → guest_has_iothread m.guest || unload_has_iothread m.unload ≡ false
    → length m.device.fpga.rq.buffer ≤ num_possible_virtines
    → (final : VirtineFpgaDevice) × (effects : List Effect) × (process_batch m.device.fpga
        ≡ some (final, effects))
      × (t : Machine) × CleanerSteps m t
      × (t.cleaner ≡ unlocking)
      × (t.device.fpga ≡ final)
      × (t.asked ≡ m.asked ++ effects)
process_batch_runs m c free fits =
    let (final, effects, e) = process_batch_ends m.device.fpga fits in
    let (t, steps, unlocks, device, asked) = batch_runs m final effects c free e in
    (final, effects, e, t, steps, unlocks, device, asked)
