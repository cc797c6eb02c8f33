-- ===== src/System/Handler.antt =====
-- The interrupt handler of the driver, fpga-char/fpga_char_main.c:205-237, on the device at work:
-- between its accesses the clean-up thread goes on, qemu-fpga-char/virtine_fpga.c:327-397.
pub mod Run
pub mod Fetch
pub mod Fetched
pub mod Returned
use linux_pcie_dma.Common.{
  ℕ, ◌+◌, ◌≡◌, Bool, true, false, not, List, [], ◌∷◌, ◌++◌, u32, if◌then◌else◌,
}
use linux_pcie_dma.Registers.Driver
use linux_pcie_dma.Device.Mmio.{virtine_fpga_mmio_read, virtine_fpga_mmio_write}
use linux_pcie_dma.Device.Machine.{
  outside, plugged, reads, writes, Machine, cleaner_has_lock, cleaner_has_iothread, handle, rings,
  woken, accepts, takes,
}
use linux_pcie_dma.Device.Machine.Batch.{CleanerSteps}
use linux_pcie_dma.Driver.{Mmio}

-- Nothing keeps an access out of the device, not even one that takes the processing lock.
pub record IsOpen (m : Machine) : Type 0 where
  pub lock : cleaner_has_lock m.cleaner ≡ false
  pub iothread : cleaner_has_iothread m.cleaner ≡ false
  pub guest : m.guest ≡ outside
  pub unload : m.unload ≡ plugged

-- The device after a read of the guest that was let in, and after a write, with the signal that a
-- ring of the doorbell sends.
unfoldable pub read_at : Machine → ℕ → Machine
read_at m offset = record m {
  device = handle m.device (reads offset);
  accepted = m.accepted ++ accepts m.device (reads offset);
  fetched = m.fetched ++ takes m.device (reads offset);
}

unfoldable pub written_at : Machine → ℕ → ℕ → Machine
written_at m offset val = record m {
  device = handle m.device (writes offset val);
  cleaner = if rings (writes offset val) then woken m.cleaner else m.cleaner;
  accepted = m.accepted ++ accepts m.device (writes offset val);
  fetched = m.fetched ++ takes m.device (writes offset val);
}

-- How the device stands when the next access gets in, given how it stands at each of the coming
-- ones; once these are used up, the thread does nothing more.
abbrev pub got_in : Machine → List Machine → Machine
got_in m [] = m
got_in m (entry ∷ entries) = entry

abbrev pub later_entries : List Machine → List Machine
later_entries [] = []
later_entries (entry ∷ entries) = entries

-- The bus of the guest, on which the thread works between the accesses.
unfoldable pub machine_bus : Mmio (Machine × List Machine)
unfolding read_at written_at
machine_bus = record {
  ioread32 = λ (s : Machine × List Machine) offset.
      let entered = got_in s.0 s.1 in
      (
        u32 (virtine_fpga_mmio_read entered.device offset).0,
        (read_at entered offset, later_entries s.1),
      );
  iowrite32 = λ value offset (s : Machine × List Machine).
      (written_at (got_in s.0 s.1) offset (u32 value), later_entries s.1);
}

-- The two registers that the handler reads by turns.
abbrev pub half_offset : Bool → ℕ
half_offset false = Driver.cq_head_offset_reg
half_offset true = Driver.cq_head_offset_reg + 4

-- The thread takes the device from each access of the handler to the next one's entry.
abbrev pub Interleaved : Bool → Machine → List Machine → Type 0
Interleaved second m [] = IsOpen m
Interleaved second m (entry ∷ entries) =
    CleanerSteps m entry
    × IsOpen entry
    × Interleaved (not second) (read_at entry (half_offset second)) entries
