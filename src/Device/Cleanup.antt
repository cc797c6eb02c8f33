-- ===== src/Device/Cleanup.antt =====
-- The clean-up thread, virtine_fpga_virtine_cleanup, qemu-fpga-char/virtine_fpga.c:327-397. The
-- thread holds the processing lock over a whole batch, so that a batch is one step of the device;
-- `Device.Thread` has the waiting and the wake-ups around it.
pub mod Rounds
pub mod Batch
pub mod Ends
use linux_pcie_dma.Common.{
  ℕ, zero, suc, ◌+◌, Bool, true, false, not, ◌&&◌, Option, none, some, List, [], ◌∷◌, ◌++◌, leb,
  ◌==◌, if◌then◌else◌, u32,
}
use linux_pcie_dma.Registers.{num_possible_virtines}
use linux_pcie_dma.RingQueue.{pop_head, insert_tail}
use linux_pcie_dma.Device.{VirtineFpgaDevice}
use linux_pcie_dma.Device.Effects.{Effect, pci_dma_write, msi_notify}

-- Once enough virtines are cleaned, raise an interrupt and count anew.
unfoldable pub notify_if_enough : VirtineFpgaDevice → VirtineFpgaDevice × List Effect
notify_if_enough fpga =
    if leb fpga.batch_factor fpga.num_virtines_cleaned_already
    then (record fpga { num_virtines_cleaned_already = 0 }, msi_notify 0 ∷ [])
    else (fpga, [])

-- The body of the loop up to the next pop.
unfoldable pub clean_virtine : VirtineFpgaDevice → ℕ → VirtineFpgaDevice × List Effect
unfolding notify_if_enough
clean_virtine fpga virtine_to_clean =
    let cleaned = record fpga {
      num_virtines_cleaned_already = u32 (fpga.num_virtines_cleaned_already + 1);
      cq = (insert_tail fpga.cq virtine_to_clean).1;
      is_card_processing = false;
    } in
    let (notified, raised) = notify_if_enough cleaned in
    (notified, pci_dma_write virtine_to_clean fpga.snapshot_addr fpga.snapshot_size ∷ raised)

-- `while(virtine_to_clean)`, on fuel; `none` says that the fuel ran out.
unfoldable pub clean_while : ℕ → VirtineFpgaDevice → ℕ → Option (VirtineFpgaDevice × List Effect)
clean_while zero fpga virtine_to_clean = none
clean_while (suc fuel) fpga virtine_to_clean = elim (virtine_to_clean == 0) [
  | true ↦ some (fpga, [])
  | false ↦
      let (cleaned, effects) = clean_virtine fpga virtine_to_clean in
      let (next, queue) = pop_head cleaned.rq in
      elim (clean_while fuel (record cleaned { rq = queue }) next) [
        | none ↦ none
        | some (final, rest) ↦ some (final, effects ++ rest)
      ]
]

-- A pop and the loop that it starts.
unfoldable pub clean_ready : ℕ → VirtineFpgaDevice → Option (VirtineFpgaDevice × List Effect)
clean_ready fuel fpga =
    let (virtine_to_clean, queue) = pop_head fpga.rq in
    clean_while fuel (record fpga { rq = queue }) virtine_to_clean

-- From the end of the wait to the unlock, on a device that is not stopping. The queue holds at most
-- `num_possible_virtines` addresses, and the last round finds it empty.
unfoldable pub process_batch : VirtineFpgaDevice → Option (VirtineFpgaDevice × List Effect)
process_batch fpga =
    clean_ready (num_possible_virtines + 1)
      (record fpga { is_card_processing = true; doorbell = false })
