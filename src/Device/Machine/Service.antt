-- ===== src/Device/Machine/Service.antt =====
-- The device from virtine_fpga_realize on, at work under a guest that keeps its promises:
-- qemu-fpga-char/virtine_fpga.c:127-497.
use linux_pcie_dma.Common.{ℕ, ap, refl, [], ◌∷◌, ◌+◌, ◌≤◌, ◌≡◌, false, ◌++◌, arith}
use mathlib.Core.List.{map}
use linux_pcie_dma.Fifo.{Fifo}
use linux_pcie_dma.Device.{VirtineFpgaDevice, DeviceState, Holds}
use linux_pcie_dma.Device.Effects.{dma_writes, host_stores, num_threads, interrupts}
use linux_pcie_dma.Device.Realize.{virtine_fpga_realize, IsZeroed, virtine_fpga_realize_lem}
use linux_pcie_dma.Device.Machine.{Machine, Reach}
use linux_pcie_dma.Device.Machine.Accounts.{Honest, restored, in_hand, pending}
use linux_pcie_dma.Device.Machine.Accounts.Flow.{Within, virtines_kept}
use linux_pcie_dma.Device.Machine.Interrupts.{num_restored}
use linux_pcie_dma.Device.Machine.Interrupts.Counter.{
  Steady, uncounted, unreset, interrupts_counted,
}
use linux_pcie_dma.Device.Machine.Snapshot.{Settled, copied_from, snapshots_copied, nothing_stored}

-- A device as it is realized, whatever the handlers' static variables hold.
abbrev pub realized :
    (clean_state : ℕ) → VirtineFpgaDevice → (split_return split_write : ℕ) → DeviceState
realized clean_state device split_return split_write = record {
  fpga = (virtine_fpga_realize false clean_state device).0;
  split_return = split_return;
  split_write = split_write;
}

-- A guest that hands over no address 0, keeps at most a hundred virtines under way, and writes
-- neither the batch factor nor the snapshot's registers.
pub record KeepsPromises {s : DeviceState} {m : Machine} (r : Reach s m) : Type 0 where
  pub honest : Honest r
  pub within : Within r
  pub steady : Steady r
  pub settled : Settled r

-- A zeroed device that virtine_fpga_realize brings up, under a guest that keeps its promises, at
-- every moment of every interleaving: the accepted virtines are, in order, those fetched,
-- completed, on their way, in hand and ready, none lost; each restored one was copied eight
-- bytes from the block that the call allocated, and nothing else was written by DMA; the call and
-- all that follows store just the pattern of the snapshot there and nothing elsewhere in QEMU's
-- memory; the call creates the thread, once; and the interrupts,
-- the counter of at most one, and a virtine that is not counted yet are together as many as the
-- restored virtines, and one more while the counter is still to be reset.
pub service :
    (clean_state split_return split_write : ℕ) (device : VirtineFpgaDevice) {m : Machine}
    (r : Reach (realized clean_state device split_return split_write) m)
    → IsZeroed device
    → KeepsPromises r
    → (dirty : Fifo) × (clean : Fifo) × Holds m.device.fpga dirty clean
      × (m.accepted ≡ ((m.fetched ++ clean) ++ pending m.cleaner) ++ (in_hand m.cleaner ++ dirty))
      × (dma_writes m.asked ≡ map (copied_from clean_state 8) (restored m.asked))
      × (host_stores ((virtine_fpga_realize false clean_state device).1 ++ m.asked)
          ≡ (clean_state, 0xfeedbeaddeadbeef) ∷ [])
      × (num_threads (virtine_fpga_realize false clean_state device).1 ≡ 1)
      × (interrupts m.asked + m.device.fpga.num_virtines_cleaned_already + uncounted m.cleaner
          ≡ num_restored m.asked + unreset m.cleaner 1)
      × (m.device.fpga.num_virtines_cleaned_already ≤ 1)
unfolding virtine_fpga_realize
service clean_state split_return split_write device {m} r z k =
    let holds = (virtine_fpga_realize_lem clean_state device z).0 in
    let (dirty, clean, now, none_dropped, kept) = virtines_kept r holds k.honest k.within in
    let (counted, most, factor) =
      interrupts_counted r (record { below = omega arith; word = omega arith }) k.steady in
    (
      dirty,
      clean,
      now,
      kept,
      snapshots_copied r k.settled,
      ap (λ l. (clean_state, 0xfeedbeaddeadbeef) ∷ l) (nothing_stored r k.settled),
      refl,
      omega (arith, counted),
      most,
    )
