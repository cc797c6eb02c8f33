-- ===== src/Device/Machine/Accounts/Cleaner.antt =====
-- The clean-up thread keeps account of every virtine.
use linux_pcie_dma.Common.{
  ℕ, ◌+◌, ◌<◌, ◌≡◌, refl, sym, ap, ◌∙◌, Bool, true, false, List, [], ◌∷◌, ◌++◌, arith, ◌==◌,
  if◌then◌else◌, All, u32,
}
use mathlib.Core.List.{append_assoc, append-nil}
use mathlib.Core.Path.{subst}
use linux_pcie_dma.Fifo
use linux_pcie_dma.Fifo.{Fifo}
use linux_pcie_dma.RingQueue.{pop_head, insert_tail}
use linux_pcie_dma.RingQueue.Invariant.{Represents}
use linux_pcie_dma.RingQueue.Pop.{pop_head_refines}
use linux_pcie_dma.RingQueue.Insert.{insert_tail_refines}
use linux_pcie_dma.Device.Effects.{pci_dma_write}
use linux_pcie_dma.Device.Machine.{
  CleanerPc, popping, holding, copied, moved, unlocking, Machine, with_fpga, has_room, CleanerStep,
  lock, test_waits, wait, wake_spuriously, test_stops, test_cleans, begin, reset_doorbell, pop,
  copy, move, settle, decide, lock_iothread, raise, unlock_iothread, recount, unlock,
}
use linux_pcie_dma.Device.Machine.Accounts.{
  restored, in_hand, pending, Merge, left, right, Accounts, Same-Accounts, restored-msi,
  restored-copy, has_room_lem,
}

-- The states after the steps that move a virtine.
abbrev popped : Machine → CleanerPc → Machine
popped m pc = record (with_fpga m (record m.device.fpga { rq = (pop_head m.device.fpga.rq).1 })) {
  cleaner = pc;
}

abbrev after_pop : ℕ → CleanerPc
after_pop v = if v == 0 then unlocking else holding v

popped-Accounts :
    (m : Machine) (v : ℕ) (h : Accounts m) (dirty : Fifo)
    → h.dirty ≡ dirty
    → m.cleaner ≡ popping
    → (pop_head m.device.fpga.rq).0 ≡ v
    → Accounts (popped m (after_pop v))
unfolding Fifo.pop
popped-Accounts m v h [] d a b =
    let r : ((pop_head m.device.fpga.rq).0 ≡ 0) × Represents (pop_head m.device.fpga.rq).1 [] =
      pop_head_refines [] (rw (← d) h.holds.ready) in
    let z : after_pop v ≡ unlocking = ground arith in
    subst (λ pc. Accounts (popped m pc)) (sym z)
      (record {
        dirty = [];
        clean = h.clean;
        through = h.through;
        holds = record { ready = r.1; completed = h.holds.completed };
        taken = ground arith;
        split = ground arith;
        merged = h.merged;
        in_hand_nonzero = tt;
        pending_nonzero = tt;
      })
popped-Accounts m v h (x ∷ dirty) d a b =
    let ready : Represents m.device.fpga.rq (x ∷ dirty) = rw (← d) h.holds.ready in
    let r : ((pop_head m.device.fpga.rq).0 ≡ x) × Represents (pop_head m.device.fpga.rq).1 dirty =
      pop_head_refines (x ∷ dirty) ready in
    let pos : 0 < v = omega (arith, ready.nonzero.0) in
    let z : after_pop v ≡ holding v = ground arith in
    subst (λ pc. Accounts (popped m pc)) (sym z)
      (record {
        dirty = dirty;
        clean = h.clean;
        through = h.through;
        holds = record { ready = r.1; completed = h.holds.completed };
        taken = ground arith;
        split = ground arith;
        merged = h.merged;
        in_hand_nonzero = (pos, tt);
        pending_nonzero = tt;
      })

abbrev copied_over : Machine → ℕ → Machine
copied_over m v = record m {
  cleaner = copied v;
  asked = m.asked ++ (pci_dma_write v m.device.fpga.snapshot_addr m.device.fpga.snapshot_size ∷ []);
}

copied-Accounts :
    (m : Machine) (v : ℕ) → Accounts m → m.cleaner ≡ holding v → Accounts (copied_over m v)
copied-Accounts m v h a =
    let grown = restored-copy m.asked v m.device.fpga.snapshot_addr m.device.fpga.snapshot_size in
    let before : restored m.asked ≡ h.through ++ [] = ground arith in
    let taken : m.accepted ≡ restored m.asked ++ (v ∷ h.dirty) = ground arith in
    let nonzero : All (λ v. 0 < v) (v ∷ []) =
      subst (λ pc. All (λ v. 0 < v) (in_hand pc)) a h.in_hand_nonzero in
    record {
      dirty = h.dirty;
      clean = h.clean;
      through = h.through;
      holds = record { ready = h.holds.ready; completed = h.holds.completed };
      taken = rw (grown, append_assoc) taken;
      split = rw grown (ap (λ r. r ++ (v ∷ [])) (before ∙ append-nil h.through));
      merged = h.merged;
      in_hand_nonzero = tt;
      pending_nonzero = nonzero;
    }

abbrev put : Machine → ℕ → Machine
put m v =
    record (with_fpga m (record m.device.fpga {
      num_virtines_cleaned_already = u32 (m.device.fpga.num_virtines_cleaned_already + 1);
      cq = (insert_tail m.device.fpga.cq v).1;
    })) {
      cleaner = moved;
      dropped = m.dropped ++ (if has_room m.device.fpga.cq v then [] else v ∷ []);
    }

put_merged :
    (fetched clean dropped through : List ℕ) (v : ℕ) (room : Bool)
    → Merge (fetched ++ clean) dropped through
    → Merge
        (fetched ++ (if room then clean ++ (v ∷ []) else clean))
        (dropped ++ (if room then [] else v ∷ []))
        (through ++ (v ∷ []))
put_merged fetched clean dropped through v true h =
    rw (append-nil dropped) (left v h (sym (append_assoc fetched clean (v ∷ []))) refl)
put_merged fetched clean dropped through v false h = right v h refl refl

put-Accounts : (m : Machine) (v : ℕ) → Accounts m → m.cleaner ≡ copied v → Accounts (put m v)
unfolding Fifo.insert
put-Accounts m v h a =
    let pos : All (λ v. 0 < v) (v ∷ []) =
      subst (λ pc. All (λ v. 0 < v) (pending pc)) a h.pending_nonzero in
    let r = (insert_tail_refines h.clean v h.holds.completed pos.0).0 in
    let room = has_room_lem h.clean v h.holds.completed pos.0 in
    let split : restored m.asked ≡ h.through ++ (v ∷ []) = ground arith in
    record {
      dirty = h.dirty;
      clean = Fifo.insert h.clean v;
      through = h.through ++ (v ∷ []);
      holds = record { ready = h.holds.ready; completed = r };
      taken = ground arith;
      split = split ∙ sym (append-nil _);
      merged =
          rw room
            (put_merged m.fetched h.clean m.dropped h.through v (Fifo.has_room h.clean) h.merged);
      in_hand_nonzero = tt;
      pending_nonzero = tt;
    }

pub CleanerStep-Accounts : {m t : Machine} → CleanerStep m t → Accounts m → Accounts t
CleanerStep-Accounts (lock a b e) h = Same-Accounts (ground arith) h
CleanerStep-Accounts (test_waits a b e) h = Same-Accounts (ground arith) h
CleanerStep-Accounts (wait a e) h = Same-Accounts (ground arith) h
CleanerStep-Accounts (wake_spuriously a e) h = Same-Accounts (ground arith) h
CleanerStep-Accounts (test_stops a b e) h = Same-Accounts (ground arith) h
CleanerStep-Accounts (test_cleans a b c e) h = Same-Accounts (ground arith) h
CleanerStep-Accounts (begin a e) h = Same-Accounts (ground arith) h
CleanerStep-Accounts (reset_doorbell a e) h = Same-Accounts (ground arith) h
CleanerStep-Accounts {m} (pop v a b e) h = rw e (popped-Accounts m v h h.dirty refl a b)
CleanerStep-Accounts {m} (copy v a e) h = rw e (copied-Accounts m v h a)
CleanerStep-Accounts {m} (move v a e) h = rw e (put-Accounts m v h a)
CleanerStep-Accounts (settle a e) h = Same-Accounts (ground arith) h
CleanerStep-Accounts (decide a e) h = Same-Accounts (ground arith) h
CleanerStep-Accounts (lock_iothread a b e) h = Same-Accounts (ground arith) h
CleanerStep-Accounts {m} (raise a e) h = Same-Accounts (ground (arith, restored-msi m.asked 0)) h
CleanerStep-Accounts (unlock_iothread a e) h = Same-Accounts (ground arith) h
CleanerStep-Accounts (recount a e) h = Same-Accounts (ground arith) h
CleanerStep-Accounts (unlock a e) h = Same-Accounts (ground arith) h
