-- ===== src/Device/Machine.antt =====
-- The whole device at work, qemu-fpga-char/virtine_fpga.c: the clean-up thread (327-397) statement
-- by statement, the guest's accesses (127-310) and the unloading (476-488), interleaved. QEMU
-- dispatches an access and unplugs a device with the iothread lock held; the thread takes that lock
-- for an interrupt, with the processing lock in its hands.
mod Places
pub mod Refine
pub mod Deadlock
pub mod Teardown
pub mod Progress
pub mod Ending
pub mod Accounts
pub mod Batch
pub mod Alone
pub mod Rest
pub mod Torn
pub mod Interrupts
pub mod Snapshot
pub mod Service
pub use Places.*
use linux_pcie_dma.Common.{
  ℕ, ◌+◌, ◌≡◌, Bool, true, false, not, ◌&&◌, ◌||◌, List, [], ◌∷◌, ◌++◌, leb, ◌==◌, if◌then◌else◌,
  u32,
}
use linux_pcie_dma.Registers.{rq_tail_offset_reg, doorbell_reg, cq_head_offset_reg}
use linux_pcie_dma.RingQueue.{VirtineRingQueue, pop_head, insert_tail}
use linux_pcie_dma.Device.{VirtineFpgaDevice, DeviceState}
use linux_pcie_dma.Device.Effects.{Effect, pci_dma_write, msi_notify}
use linux_pcie_dma.Device.Mmio.{virtine_fpga_mmio_read, virtine_fpga_mmio_write}
use linux_pcie_dma.Device.Mmio.Access.{joined_address}

-- `asked` is what the thread asked of QEMU. The last three follow addresses: those that went into
-- the ready queue, those that the guest took from the completed queue, and clean ones for which
-- there was no room in it.
pub record Machine : Type 0 where
  pub device : DeviceState
  pub cleaner : CleanerPc
  pub guest : GuestPc
  pub unload : UnloadPc
  pub asked : List Effect
  pub accepted : List ℕ
  pub fetched : List ℕ
  pub dropped : List ℕ

-- The handler of an access, and whether it takes the processing lock.
abbrev pub handle : DeviceState → Access → DeviceState
handle s (reads addr) = (virtine_fpga_mmio_read s addr).1
handle s (writes addr val) = (virtine_fpga_mmio_write s addr val).0

abbrev pub needs_lock : Access → Bool
needs_lock (reads addr) = addr == cq_head_offset_reg
needs_lock (writes addr val) = addr == (rq_tail_offset_reg + 4)

abbrev pub rings : Access → Bool
rings (reads addr) = false
rings (writes addr val) = addr == doorbell_reg

-- insert_tail returns the old TAIL exactly when there is no room.
abbrev pub has_room : VirtineRingQueue → ℕ → Bool
has_room queue x =
    let (tail, after) = insert_tail queue x in if tail == queue.tail_offset then false else true

-- The addresses that an access puts into the ready queue, and takes from the completed one.
abbrev pub accepts : DeviceState → Access → List ℕ
accepts s (reads addr) = []
accepts s (writes addr val) =
    if addr == (rq_tail_offset_reg + 4) && has_room s.fpga.rq (joined_address s val)
    then joined_address s val ∷ []
    else []

abbrev pub takes : DeviceState → Access → List ℕ
takes s (reads addr) =
    if addr == cq_head_offset_reg
    then (if (pop_head s.fpga.cq).0 == 0 then [] else (pop_head s.fpga.cq).0 ∷ [])
    else []
takes s (writes addr val) = []

-- The device with members of the fpga changed.
abbrev pub with_fpga : Machine → VirtineFpgaDevice → Machine
with_fpga m fpga = record m { device = record m.device { fpga = fpga } }

abbrev pub must_wait : Machine → Bool
must_wait m = not m.device.fpga.doorbell && not m.device.fpga.stopping

-- One step of the clean-up thread.
pub data CleanerStep (m t : Machine) : Type 0 where
  lock :
      m.cleaner ≡ locking
      → unload_has_lock m.unload ≡ false
      → t ≡ record m { cleaner = testing }
      → CleanerStep m t
  test_waits :
      m.cleaner ≡ testing
      → must_wait m ≡ true
      → t ≡ record m { cleaner = entering_wait }
      → CleanerStep m t
  wait : m.cleaner ≡ entering_wait → t ≡ record m { cleaner = asleep } → CleanerStep m t
  -- a condition variable may wake its waiter with no signal
  wake_spuriously : m.cleaner ≡ asleep → t ≡ record m { cleaner = locking } → CleanerStep m t
  test_stops :
      m.cleaner ≡ testing
      → m.device.fpga.stopping ≡ true
      → t ≡ record m { cleaner = finished }
      → CleanerStep m t
  test_cleans :
      m.cleaner ≡ testing
      → must_wait m ≡ false
      → m.device.fpga.stopping ≡ false
      → t ≡ record m { cleaner = beginning }
      → CleanerStep m t
  begin :
      m.cleaner ≡ beginning
      → t ≡ record (with_fpga m (record m.device.fpga { is_card_processing = true })) {
        cleaner = resetting;
      }
      → CleanerStep m t
  reset_doorbell :
      m.cleaner ≡ resetting
      → t ≡ record (with_fpga m (record m.device.fpga { doorbell = false })) { cleaner = popping }
      → CleanerStep m t
  pop :
      (virtine : ℕ)
      → m.cleaner ≡ popping
      → (pop_head m.device.fpga.rq).0 ≡ virtine
      → t ≡ record (with_fpga m (record m.device.fpga { rq = (pop_head m.device.fpga.rq).1 })) {
        cleaner = if virtine == 0 then unlocking else holding virtine;
      }
      → CleanerStep m t
  copy :
      (virtine : ℕ)
      → m.cleaner ≡ holding virtine
      → t ≡ record m {
        cleaner = copied virtine;
        asked =
            m.asked
            ++ (pci_dma_write virtine m.device.fpga.snapshot_addr m.device.fpga.snapshot_size ∷ []);
      }
      → CleanerStep m t
  move :
      (virtine : ℕ)
      → m.cleaner ≡ copied virtine
      → t
        ≡ record (with_fpga m (record m.device.fpga {
          num_virtines_cleaned_already = u32 (m.device.fpga.num_virtines_cleaned_already + 1);
          cq = (insert_tail m.device.fpga.cq virtine).1;
        })) {
          cleaner = moved;
          dropped = m.dropped ++ (if has_room m.device.fpga.cq virtine then [] else virtine ∷ []);
        }
      → CleanerStep m t
  settle :
      m.cleaner ≡ moved
      → t ≡ record (with_fpga m (record m.device.fpga { is_card_processing = false })) {
        cleaner = deciding;
      }
      → CleanerStep m t
  decide :
      m.cleaner ≡ deciding
      → t ≡ record m {
        cleaner =
            if leb m.device.fpga.batch_factor m.device.fpga.num_virtines_cleaned_already
            then notifying
            else popping;
      }
      → CleanerStep m t
  lock_iothread :
      m.cleaner ≡ notifying
      → guest_has_iothread m.guest || unload_has_iothread m.unload ≡ false
      → t ≡ record m { cleaner = raising }
      → CleanerStep m t
  raise :
      m.cleaner ≡ raising
      → t ≡ record m { cleaner = raised; asked = m.asked ++ (msi_notify 0 ∷ []) }
      → CleanerStep m t
  unlock_iothread : m.cleaner ≡ raised → t ≡ record m { cleaner = recounting } → CleanerStep m t
  recount :
      m.cleaner ≡ recounting
      → t ≡ record (with_fpga m (record m.device.fpga { num_virtines_cleaned_already = 0 })) {
        cleaner = popping;
      }
      → CleanerStep m t
  unlock : m.cleaner ≡ unlocking → t ≡ record m { cleaner = locking } → CleanerStep m t

-- One step of the guest, which is free to make any access.
pub data GuestStep (m t : Machine) : Type 0 where
  dispatch :
      (a : Access)
      → m.guest ≡ outside
      → cleaner_has_iothread m.cleaner || unload_has_iothread m.unload ≡ false
      → t ≡ record m { guest = inside a }
      → GuestStep m t
  access :
      (a : Access)
      → m.guest ≡ inside a
      → needs_lock a && (cleaner_has_lock m.cleaner || unload_has_lock m.unload) ≡ false
      → t ≡ record m {
        device = handle m.device a;
        guest = if rings a then signalling_bell else returning;
        accepted = m.accepted ++ accepts m.device a;
        fetched = m.fetched ++ takes m.device a;
      }
      → GuestStep m t
  signal_bell :
      m.guest ≡ signalling_bell
      → t ≡ record m { guest = returning; cleaner = woken m.cleaner }
      → GuestStep m t
  return : m.guest ≡ returning → t ≡ record m { guest = outside } → GuestStep m t

-- One step of virtine_fpga_uninit.
pub data UnloadStep (m t : Machine) : Type 0 where
  begin_unload :
      m.unload ≡ plugged
      → cleaner_has_iothread m.cleaner || guest_has_iothread m.guest ≡ false
      → t ≡ record m { unload = begun }
      → UnloadStep m t
  lock_uninit :
      m.unload ≡ begun
      → cleaner_has_lock m.cleaner ≡ false
      → t ≡ record m { unload = unloading }
      → UnloadStep m t
  stop :
      m.unload ≡ unloading
      → t ≡ record (with_fpga m (record m.device.fpga { stopping = true })) { unload = signalling }
      → UnloadStep m t
  signal_stop :
      m.unload ≡ signalling
      → t ≡ record m { unload = joining; cleaner = woken m.cleaner }
      → UnloadStep m t
  join :
      m.unload ≡ joining → m.cleaner ≡ finished → t ≡ record m { unload = joined } → UnloadStep m t
  destroy_condition :
      m.unload ≡ joined → t ≡ record m { unload = condition_destroyed } → UnloadStep m t
  destroy_lock :
      m.unload ≡ condition_destroyed → t ≡ record m { unload = lock_destroyed } → UnloadStep m t
  unref : m.unload ≡ lock_destroyed → t ≡ record m { unload = unloaded } → UnloadStep m t

pub data Step (m t : Machine) : Type 0 where
  by_cleaner : CleanerStep m t → Step m t
  by_guest : GuestStep m t → Step m t
  by_unload : UnloadStep m t → Step m t

-- As virtine_fpga_realize leaves it.
abbrev pub started : DeviceState → Machine
started s = record {
  device = s;
  cleaner = locking;
  guest = outside;
  unload = plugged;
  asked = [];
  accepted = [];
  fetched = [];
  dropped = [];
}

-- From a device that was just realized.
pub data Reach (s : DeviceState) : Machine → Type 0 where
  start : Reach s (started s)
  later : {m t : Machine} → Reach s m → Step m t → Reach s t
