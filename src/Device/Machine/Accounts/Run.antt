-- ===== src/Device/Machine/Accounts/Run.antt =====
-- What becomes of every virtine in any run of the device.
use linux_pcie_dma.Common.{ℕ, ◌≡◌, refl, List, [], ◌++◌, arith}
use linux_pcie_dma.Fifo.{Fifo}
use linux_pcie_dma.Device.{DeviceState, Holds}
use linux_pcie_dma.Device.Machine.{
  Machine, dispatch, access, signal_bell, return, begin_unload, lock_uninit, stop, signal_stop,
  join, destroy_condition, destroy_lock, unref, Step, by_cleaner, by_guest, by_unload, started,
  Reach, start, later,
}
use linux_pcie_dma.Device.Machine.Accounts.Cleaner.{CleanerStep-Accounts}
use linux_pcie_dma.Device.Machine.Accounts.Guest.{accessed-Accounts}
use linux_pcie_dma.Device.Machine.Accounts.{
  HonestStep, Honest, restored, in_hand, pending, Merge, neither, Accounts, Same-Accounts,
  in_hand-woken, pending-woken,
}

Step-Accounts : {m t : Machine} → (st : Step m t) → HonestStep st → Accounts m → Accounts t
Step-Accounts (by_cleaner st) ok h = CleanerStep-Accounts st h
Step-Accounts (by_guest (dispatch a g b e)) ok h = Same-Accounts (ground arith) h
Step-Accounts {m} (by_guest (access a g b e)) ok h = rw e (accessed-Accounts m _ a ok h)
Step-Accounts {m} (by_guest (signal_bell g e)) ok h =
    Same-Accounts (ground (arith, in_hand-woken m.cleaner, pending-woken m.cleaner)) h
Step-Accounts (by_guest (return g e)) ok h = Same-Accounts (ground arith) h
Step-Accounts (by_unload (begin_unload u b e)) ok h = Same-Accounts (ground arith) h
Step-Accounts (by_unload (lock_uninit u b e)) ok h = Same-Accounts (ground arith) h
Step-Accounts (by_unload (stop u e)) ok h = Same-Accounts (ground arith) h
Step-Accounts {m} (by_unload (signal_stop u e)) ok h =
    Same-Accounts (ground (arith, in_hand-woken m.cleaner, pending-woken m.cleaner)) h
Step-Accounts (by_unload (join u ended e)) ok h = Same-Accounts (ground arith) h
Step-Accounts (by_unload (destroy_condition u e)) ok h = Same-Accounts (ground arith) h
Step-Accounts (by_unload (destroy_lock u e)) ok h = Same-Accounts (ground arith) h
Step-Accounts (by_unload (unref u e)) ok h = Same-Accounts (ground arith) h

started-Accounts : {s : DeviceState} → Holds s.fpga [] [] → Accounts (started s)
unfolding restored
started-Accounts h = record {
  dirty = [];
  clean = [];
  through = [];
  holds = h;
  taken = refl;
  split = refl;
  merged = neither;
  in_hand_nonzero = tt;
  pending_nonzero = tt;
}

pub Reach-Accounts :
    {s : DeviceState} {m : Machine} (r : Reach s m) → Holds s.fpga [] [] → Honest r → Accounts m
Reach-Accounts start h ok = started-Accounts h
Reach-Accounts (later r st) h ok = Step-Accounts st ok.1 (Reach-Accounts r h ok.0)

-- However the thread, the guest and the unloading interleave, as long as the guest hands over no
-- address 0: the virtines accepted so far are, in order, those that the snapshot was copied over,
-- the one in the thread's hands, and those in the ready queue. The restored ones, but for one on its
-- way, are those that the guest has fetched and then those in the completed queue, merged with the
-- ones for which that queue had no room; none is lost otherwise, doubled, or fetched unrestored.
pub virtines_accounted :
    {s : DeviceState} {m : Machine} (r : Reach s m)
    → Holds s.fpga [] []
    → Honest r
    → (dirty : Fifo) × (clean : Fifo) × (through : List ℕ) × Holds m.device.fpga dirty clean
      × (m.accepted ≡ restored m.asked ++ (in_hand m.cleaner ++ dirty))
      × (restored m.asked ≡ through ++ pending m.cleaner)
      × Merge (m.fetched ++ clean) m.dropped through
virtines_accounted r h ok =
    let accounts = Reach-Accounts r h ok in
    (
      accounts.dirty, accounts.clean, accounts.through, accounts.holds, accounts.taken,
      accounts.split, accounts.merged,
    )
