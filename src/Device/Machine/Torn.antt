-- ===== src/Device/Machine/Torn.antt =====
-- A snapshot that is set in two halves while the clean-up thread is at work.
use linux_pcie_dma.Common.{ℕ, ◌+◌, ◌*◌, ◌^◌, ◌<◌, ◌≡◌, refl, [], ◌∷◌, ◌++◌, arith, bit_or-shl32}
use linux_pcie_dma.Registers.{snapshot_addr_reg}
use linux_pcie_dma.Device.{DeviceState}
use linux_pcie_dma.Device.Effects.{pci_dma_write}
use linux_pcie_dma.Device.Mmio.{virtine_fpga_mmio_write}
use linux_pcie_dma.Device.Machine.{
  holding, outside, plugged, writes, Machine, copy, dispatch, access, return, by_cleaner, by_guest,
  Reach, later,
}

-- While the thread holds a virtine that it has not restored yet, the guest is outside the device and
-- nothing unloads it, the guest can begin to set a new snapshot, lower half first, so that the
-- thread overwrites the virtine from that half alone: from neither the old nor the new address if
-- the old one differs from it and the new one's upper half is not 0. The upper half, written next,
-- then completes the new address, too late.
snapshot_torn :
    {s : DeviceState} {m : Machine} (virtine lo hi : ℕ)
    → Reach s m
    → m.cleaner ≡ holding virtine
    → m.guest ≡ outside
    → m.unload ≡ plugged
    → lo < 2 ^ 32
    → hi < 2 ^ 32
    → (t : Machine) × Reach s t
      × (t.asked ≡ m.asked ++ (pci_dma_write virtine lo m.device.fpga.snapshot_size ∷ []))
      × ((virtine_fpga_mmio_write t.device (snapshot_addr_reg + 4) hi).0.fpga.snapshot_addr
          ≡ hi * 2 ^ 32 + lo)
unfolding virtine_fpga_mmio_write
snapshot_torn {m} virtine lo hi r c g u small_lo small_hi =
    let lower = writes snapshot_addr_reg lo in
    let r1 = later r (by_guest (dispatch lower g (ground arith) refl)) in
    let r2 = later r1 (by_guest (access lower refl refl refl)) in
    let r3 = later r2 (by_guest (return refl refl)) in
    let r4 = later r3 (by_cleaner (copy virtine c refl)) in
    (_, r4, refl, bit_or-shl32 hi lo small_hi small_lo)
