-- ===== src/Device/Machine/Interrupts.antt =====
-- How often the device at work interrupts the guest, over all interleavings: the counter of the
-- clean-up thread, qemu-fpga-char/virtine_fpga.c:366-390, against what the thread asked of QEMU.
pub mod Counter
use linux_pcie_dma.Common.{
  ℕ, ◌+◌, ◌*◌, ◌^◌, ◌≤◌, ◌<◌, ◌≡◌, ◌≢◌, refl, ap, ◌∙◌, Bool, true, false, List, [], ◌∷◌, ◌++◌,
  arith, length, length-append, if◌then◌else◌,
}
use linux_pcie_dma.Registers.{batch_factor_reg}
use linux_pcie_dma.Device.{DeviceState}
use linux_pcie_dma.Device.Effects.{
  Effect, pci_dma_write, msi_notify, dma_writes, interrupts, dma_writes-append, interrupts-append,
}
use linux_pcie_dma.Device.Mmio.{virtine_fpga_mmio_read}
use linux_pcie_dma.Device.Mmio.Access.{write_settings}
use linux_pcie_dma.Device.Cleanup.Rounds.{IsCounting}
use linux_pcie_dma.Device.Machine.{
  CleanerPc, copied, moved, deciding, notifying, raising, raised, recounting, asleep, Access, reads,
  writes, Machine, woken, handle, CleanerStep, lock, test_waits, wait, wake_spuriously, test_stops,
  test_cleans, begin, reset_doorbell, pop, copy, move, settle, decide, lock_iothread, raise,
  unlock_iothread, recount, unlock, dispatch, access, signal_bell, return, begin_unload,
  lock_uninit, stop, signal_stop, join, destroy_condition, destroy_lock, unref, Step, by_cleaner,
  by_guest, by_unload, Reach, start, later,
}

-- How often the snapshot was copied over a virtine.
unfoldable pub num_restored : List Effect → ℕ
num_restored effects = length (dma_writes effects)

pub num_restored-copy :
    (es : List Effect) (v source size : ℕ)
    → num_restored (es ++ (pci_dma_write v source size ∷ [])) ≡ num_restored es + 1
unfolding num_restored
num_restored-copy es v source size =
    ap length (dma_writes-append es (pci_dma_write v source size ∷ []))
    ∙ length-append (dma_writes es) ((v, source, size) ∷ [])
    ∙ omega arith

pub num_restored-msi :
    (es : List Effect) (n : ℕ) → num_restored (es ++ (msi_notify n ∷ [])) ≡ num_restored es
unfolding num_restored
num_restored-msi es n =
    ap length (dma_writes-append es (msi_notify n ∷ []))
    ∙ length-append (dma_writes es) []
    ∙ omega arith

-- Whether the thread has restored a virtine since the last interrupt.
abbrev due : CleanerPc → ℕ
due (copied _) = 1
due moved = 1
due deciding = 1
due notifying = 1
due raising = 1
due _ = 0

due-woken : (pc : CleanerPc) → due (woken pc) ≡ due pc
due-woken asleep = refl
due-woken _ = refl

IsEarned : Machine → Type 0
IsEarned m = interrupts m.asked + due m.cleaner ≤ num_restored m.asked

CleanerStep-IsEarned : {m t : Machine} → CleanerStep m t → IsEarned m → IsEarned t
unfolding IsEarned
CleanerStep-IsEarned (lock a b e) h = ground arith
CleanerStep-IsEarned (test_waits a b e) h = ground arith
CleanerStep-IsEarned (wait a e) h = ground arith
CleanerStep-IsEarned (wake_spuriously a e) h = ground arith
CleanerStep-IsEarned (test_stops a b e) h = ground arith
CleanerStep-IsEarned (test_cleans a b c e) h = ground arith
CleanerStep-IsEarned (begin a e) h = ground arith
CleanerStep-IsEarned (reset_doorbell a e) h = ground arith
CleanerStep-IsEarned (pop v a b e) h = ground arith
CleanerStep-IsEarned {m} (copy v a e) h = ground (
  arith,
  num_restored-copy m.asked v m.device.fpga.snapshot_addr m.device.fpga.snapshot_size,
  interrupts-append m.asked
      (pci_dma_write v m.device.fpga.snapshot_addr m.device.fpga.snapshot_size ∷ []),
)
CleanerStep-IsEarned (move v a e) h = ground arith
CleanerStep-IsEarned (settle a e) h = ground arith
CleanerStep-IsEarned (decide a e) h = ground arith
CleanerStep-IsEarned (lock_iothread a b e) h = ground arith
CleanerStep-IsEarned {m} (raise a e) h =
    ground (arith, num_restored-msi m.asked 0, interrupts-append m.asked (msi_notify 0 ∷ []))
CleanerStep-IsEarned (unlock_iothread a e) h = ground arith
CleanerStep-IsEarned (recount a e) h = ground arith
CleanerStep-IsEarned (unlock a e) h = ground arith

Step-IsEarned : {m t : Machine} → Step m t → IsEarned m → IsEarned t
unfolding IsEarned
Step-IsEarned (by_cleaner st) h = CleanerStep-IsEarned st h
Step-IsEarned (by_guest (dispatch a g b e)) h = ground arith
Step-IsEarned (by_guest (access a g b e)) h = ground arith
Step-IsEarned {m} (by_guest (signal_bell g e)) h = ground (arith, due-woken m.cleaner)
Step-IsEarned (by_guest (return g e)) h = ground arith
Step-IsEarned (by_unload (begin_unload u b e)) h = ground arith
Step-IsEarned (by_unload (lock_uninit u b e)) h = ground arith
Step-IsEarned (by_unload (stop u e)) h = ground arith
Step-IsEarned {m} (by_unload (signal_stop u e)) h = ground (arith, due-woken m.cleaner)
Step-IsEarned (by_unload (join u ended e)) h = ground arith
Step-IsEarned (by_unload (destroy_condition u e)) h = ground arith
Step-IsEarned (by_unload (destroy_lock u e)) h = ground arith
Step-IsEarned (by_unload (unref u e)) h = ground arith

Reach-IsEarned : {s : DeviceState} {m : Machine} → Reach s m → IsEarned m
unfolding IsEarned num_restored
Reach-IsEarned start = omega arith
Reach-IsEarned (later r st) = Step-IsEarned st (Reach-IsEarned r)

-- Whatever the guest writes and whenever, also as the batch factor, no run raises more interrupts
-- than it has restored virtines.
interrupts_earned :
    {s : DeviceState} {m : Machine} → Reach s m → interrupts m.asked ≤ num_restored m.asked
unfolding IsEarned
interrupts_earned r = omega (arith, Reach-IsEarned r)
