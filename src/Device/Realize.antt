-- ===== src/Device/Realize.antt =====
-- virtine_fpga_realize, qemu-fpga-char/virtine_fpga.c:399-471.
use linux_pcie_dma.Common.{ℕ, ◌<◌, ◌≡◌, refl, Bool, false, List, [], ◌∷◌, if◌then◌else◌, replicate}
use linux_pcie_dma.Registers.{num_possible_virtines}
use linux_pcie_dma.RingQueue.{null, reset_queue_pointers}
use linux_pcie_dma.RingQueue.Invariant.{reset_queue_pointers-Represents}
use linux_pcie_dma.Device.{VirtineFpgaDevice, Holds}
use linux_pcie_dma.Device.Effects.{Effect, thread_create, host_store}

-- `sizeof(uint64_t)`
abbrev pub sizeof_uint64_t : ℕ
sizeof_uint64_t = 8

-- `msi_failed` is the outcome of msi_init, and `clean_state` the block that g_malloc returns.
unfoldable pub virtine_fpga_realize :
    (msi_failed : Bool) (clean_state : ℕ) → VirtineFpgaDevice → VirtineFpgaDevice × List Effect
unfolding reset_queue_pointers
virtine_fpga_realize msi_failed clean_state device = if msi_failed then (device, []) else (
  record device {
    rq = reset_queue_pointers device.rq;
    cq = reset_queue_pointers device.cq;
    doorbell = false;
    is_card_processing = false;
    batch_factor = 1;
    num_virtines_cleaned_already = 0;
    snapshot_size = sizeof_uint64_t;
    snapshot_addr = clean_state;
  },
  thread_create ∷ host_store clean_state 0xfeedbeaddeadbeef ∷ [],
)

-- A device object as QEMU allocates it, zeroed: both buffers hold zeros, at real addresses.
pub record IsZeroed (device : VirtineFpgaDevice) : Type 0 where
  pub rq_placed : null < device.rq.location
  pub cq_placed : null < device.cq.location
  pub rq_zeroed : device.rq.buffer ≡ replicate num_possible_virtines 0
  pub cq_zeroed : device.cq.buffer ≡ replicate num_possible_virtines 0
  pub running : device.stopping ≡ false

-- A realized device is at rest: both queues are empty, the doorbell is not rung, nothing is being
-- processed, every cleaned virtine raises an interrupt, and the snapshot is the eight-byte pattern
-- that the call stored.
pub virtine_fpga_realize_lem :
    (clean_state : ℕ) (device : VirtineFpgaDevice)
    → IsZeroed device
    → let (fpga, effects) = virtine_fpga_realize false clean_state device in
      Holds fpga [] []
      × (fpga.doorbell ≡ false)
      × (fpga.is_card_processing ≡ false)
      × (fpga.batch_factor ≡ 1)
      × (fpga.num_virtines_cleaned_already ≡ 0)
      × (fpga.snapshot_size ≡ 8)
      × (effects ≡ thread_create ∷ host_store fpga.snapshot_addr 0xfeedbeaddeadbeef ∷ [])
      × (fpga.stopping ≡ false)
unfolding virtine_fpga_realize
virtine_fpga_realize_lem clean_state device z = (
  record {
    ready = reset_queue_pointers-Represents device.rq z.rq_placed z.rq_zeroed;
    completed = reset_queue_pointers-Represents device.cq z.cq_placed z.cq_zeroed;
  },
  refl,
  refl,
  refl,
  refl,
  refl,
  refl,
  z.running,
)
