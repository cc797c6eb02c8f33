-- ===== src/Device/Machine/Interrupts/Counter.antt =====
-- One interrupt for every `batch_factor` virtines, over all interleavings in which the guest leaves
-- the batch factor alone.
use linux_pcie_dma.Common.{
  ℕ, ◌+◌, ◌*◌, ◌^◌, ◌≤◌, ◌<◌, ◌≡◌, ◌≢◌, refl, Bool, true, false, [], ◌∷◌, arith,
}
use linux_pcie_dma.Registers.{batch_factor_reg}
use linux_pcie_dma.Device.{DeviceState}
use linux_pcie_dma.Device.Effects.{pci_dma_write, msi_notify, interrupts, interrupts-append}
use linux_pcie_dma.Device.Mmio.{virtine_fpga_mmio_read}
use linux_pcie_dma.Device.Mmio.Access.{write_settings}
use linux_pcie_dma.Device.Cleanup.Rounds.{IsCounting}
use linux_pcie_dma.Device.Machine.Interrupts.{num_restored, num_restored-copy, num_restored-msi}
use linux_pcie_dma.Device.Machine.{
  CleanerPc, copied, moved, deciding, notifying, raising, raised, recounting, asleep, Access, reads,
  writes, Machine, woken, handle, CleanerStep, lock, test_waits, wait, wake_spuriously, test_stops,
  test_cleans, begin, reset_doorbell, pop, copy, move, settle, decide, lock_iothread, raise,
  unlock_iothread, recount, unlock, dispatch, access, signal_bell, return, begin_unload,
  lock_uninit, stop, signal_stop, join, destroy_condition, destroy_lock, unref, Step, by_cleaner,
  by_guest, by_unload, Reach, start, later,
}

-- What the guest promises: it does not write the batch factor.
abbrev pub KeepsFactor : Access → Type 0
KeepsFactor (reads addr) = Unit
KeepsFactor (writes addr val) = addr ≢ batch_factor_reg

abbrev pub SteadyStep : {m t : Machine} → Step m t → Type 0
SteadyStep (by_guest (access a g b e)) = KeepsFactor a
SteadyStep (by_guest _) = Unit
SteadyStep (by_cleaner _) = Unit
SteadyStep (by_unload _) = Unit

abbrev pub Steady : {s : DeviceState} {m : Machine} → Reach s m → Type 0
Steady start = Unit
Steady (later r st) = Steady r × SteadyStep st

-- A virtine that is restored and not counted yet; an interrupt that is raised while the counter
-- still stands at the batch factor.
abbrev pub uncounted : CleanerPc → ℕ
uncounted (copied _) = 1
uncounted _ = 0

abbrev pub unreset : CleanerPc → ℕ → ℕ
unreset raised counter = counter
unreset recounting counter = counter
unreset _ counter = 0

-- Whether the counter may have reached the batch factor, and whether it has.
abbrev may_be_full : CleanerPc → Bool
may_be_full moved = true
may_be_full deciding = true
may_be_full notifying = true
may_be_full raising = true
may_be_full raised = true
may_be_full recounting = true
may_be_full _ = false

abbrev is_full : CleanerPc → Bool
is_full notifying = true
is_full raising = true
is_full raised = true
is_full recounting = true
is_full _ = false

record Seen (pc : CleanerPc) : Type 0 where
  same_uncounted : uncounted (woken pc) ≡ uncounted pc
  same_unreset : (counter : ℕ) → unreset (woken pc) counter ≡ unreset pc counter
  same_may_be_full : may_be_full (woken pc) ≡ may_be_full pc
  same_is_full : is_full (woken pc) ≡ is_full pc

Seen-woken : (pc : CleanerPc) → Seen pc
Seen-woken asleep = record {
  same_uncounted = refl;
  same_unreset = λ _. refl;
  same_may_be_full = refl;
  same_is_full = refl;
}
Seen-woken _ = record {
  same_uncounted = refl;
  same_unreset = λ _. refl;
  same_may_be_full = refl;
  same_is_full = refl;
}

record Counts (b first : ℕ) (m : Machine) : Type 0 where
  factor : m.device.fpga.batch_factor ≡ b
  below : may_be_full m.cleaner ≡ false → m.device.fpga.num_virtines_cleaned_already < b
  most : m.device.fpga.num_virtines_cleaned_already ≤ b
  full : is_full m.cleaner ≡ true → m.device.fpga.num_virtines_cleaned_already ≡ b
  total :
      interrupts m.asked * b + m.device.fpga.num_virtines_cleaned_already + uncounted m.cleaner
      ≡ first + num_restored m.asked + unreset m.cleaner b

module _ (b first : ℕ) (word : b < 2 ^ 32) (pos : 0 < b) where
  CleanerStep-Counts : {m t : Machine} → CleanerStep m t → Counts b first m → Counts b first t
  CleanerStep-Counts (lock a x e) h = ground arith
  CleanerStep-Counts (test_waits a x e) h = ground arith
  CleanerStep-Counts (wait a e) h = ground arith
  CleanerStep-Counts (wake_spuriously a e) h = ground arith
  CleanerStep-Counts (test_stops a x e) h = ground arith
  CleanerStep-Counts (test_cleans a x c e) h = ground arith
  CleanerStep-Counts (begin a e) h = ground arith
  CleanerStep-Counts (reset_doorbell a e) h = ground arith
  CleanerStep-Counts (pop v a x e) h = ground arith
  CleanerStep-Counts {m} (copy v a e) h = ground (
    arith,
    num_restored-copy m.asked v m.device.fpga.snapshot_addr m.device.fpga.snapshot_size,
    interrupts-append m.asked
        (pci_dma_write v m.device.fpga.snapshot_addr m.device.fpga.snapshot_size ∷ []),
  )
  CleanerStep-Counts (move v a e) h = ground arith
  CleanerStep-Counts (settle a e) h = ground arith
  CleanerStep-Counts (decide a e) h = ground arith
  CleanerStep-Counts (lock_iothread a x e) h = ground arith
  CleanerStep-Counts {m} {t} (raise a e) h =
      let one_more : interrupts t.asked ≡ interrupts m.asked + 1 =
        ground (arith, interrupts-append m.asked (msi_notify 0 ∷ [])) in
      let product : interrupts t.asked * b ≡ interrupts m.asked * b + b =
        rw one_more (omega arith) in
      ground (arith, num_restored-msi m.asked 0)
  CleanerStep-Counts (unlock_iothread a e) h = ground arith
  CleanerStep-Counts (recount a e) h = ground arith
  CleanerStep-Counts (unlock a e) h = ground arith

  -- An access that leaves the batch factor alone leaves the counter alone too.
  handle_counter :
      (s : DeviceState) (a : Access)
      → KeepsFactor a
      → ((handle s a).fpga.batch_factor ≡ s.fpga.batch_factor)
        × ((handle s a).fpga.num_virtines_cleaned_already ≡ s.fpga.num_virtines_cleaned_already)
  unfolding virtine_fpga_mmio_read
  handle_counter s (reads addr) k = ground arith
  handle_counter s (writes addr val) k = ground (arith, write_settings s addr val)

  Step-Counts :
      {m t : Machine} → (st : Step m t) → SteadyStep st → Counts b first m → Counts b first t
  Step-Counts (by_cleaner st) k h = CleanerStep-Counts st h
  Step-Counts (by_guest (dispatch a g x e)) k h = ground arith
  Step-Counts {m} (by_guest (access a g x e)) k h = ground (arith, handle_counter m.device a k)
  Step-Counts {m} (by_guest (signal_bell g e)) k h =
      let same = Seen-woken m.cleaner in ground (arith, same.same_unreset b)
  Step-Counts (by_guest (return g e)) k h = ground arith
  Step-Counts (by_unload (begin_unload u x e)) k h = ground arith
  Step-Counts (by_unload (lock_uninit u x e)) k h = ground arith
  Step-Counts (by_unload (stop u e)) k h = ground arith
  Step-Counts {m} (by_unload (signal_stop u e)) k h =
      let same = Seen-woken m.cleaner in ground (arith, same.same_unreset b)
  Step-Counts (by_unload (join u ended e)) k h = ground arith
  Step-Counts (by_unload (destroy_condition u e)) k h = ground arith
  Step-Counts (by_unload (destroy_lock u e)) k h = ground arith
  Step-Counts (by_unload (unref u e)) k h = ground arith

Reach-Counts :
    {s : DeviceState} {m : Machine} (r : Reach s m)
    → IsCounting s.fpga
    → Steady r
    → Counts s.fpga.batch_factor s.fpga.num_virtines_cleaned_already m
unfolding num_restored
Reach-Counts start c k = record {
  factor = refl;
  below = λ _. c.below;
  most = omega (arith, c.below);
  full = λ e. absurd (ground arith);
  total = omega arith;
}
Reach-Counts {s} (later r st) c k =
    Step-Counts s.fpga.batch_factor s.fpga.num_virtines_cleaned_already c.word
      (omega (arith, c.below)) st k.1 (Reach-Counts r c k.0)

-- Whatever the interleaving, as long as the guest does not write the batch factor, and from a
-- counter below it: the interrupts raised, times the batch factor, and the counter make up the
-- virtines restored since the start and the counter at the start. A virtine that was restored just
-- now may not be counted yet, and after an interrupt the counter is still to be reset. The counter
-- never exceeds the batch factor, so that no interrupt is late.
pub interrupts_counted :
    {s : DeviceState} {m : Machine} (r : Reach s m)
    → IsCounting s.fpga
    → Steady r
    → (interrupts m.asked * s.fpga.batch_factor
          + m.device.fpga.num_virtines_cleaned_already
          + uncounted m.cleaner
        ≡ s.fpga.num_virtines_cleaned_already
          + num_restored m.asked
          + unreset m.cleaner s.fpga.batch_factor)
      × (m.device.fpga.num_virtines_cleaned_already ≤ s.fpga.batch_factor)
      × (m.device.fpga.batch_factor ≡ s.fpga.batch_factor)
interrupts_counted r c k =
    let counts = Reach-Counts r c k in (counts.total, counts.most, counts.factor)
