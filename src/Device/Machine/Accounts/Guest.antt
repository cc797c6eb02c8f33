-- ===== src/Device/Machine/Accounts/Guest.antt =====
-- The accesses of the guest keep account of every virtine.
use linux_pcie_dma.Common.{
  ℕ, ◌+◌, ◌<◌, ◌≡◌, refl, sym, ap, ◌∙◌, Bool, true, false, List, [], ◌∷◌, ◌++◌, arith, Bool-cases,
  inl, inr, ◌==◌, if◌then◌else◌,
}
use mathlib.Core.List.{append_assoc, append-nil}
use mathlib.Core.Path.{subst}
use linux_pcie_dma.Registers.{rq_tail_offset_reg, cq_head_offset_reg}
use linux_pcie_dma.Fifo
use linux_pcie_dma.Fifo.{Fifo}
use linux_pcie_dma.RingQueue.{pop_head, insert_tail}
use linux_pcie_dma.RingQueue.Invariant.{Represents}
use linux_pcie_dma.RingQueue.Pop.{pop_head_refines}
use linux_pcie_dma.RingQueue.Insert.{insert_tail_refines}
use linux_pcie_dma.Device.{DeviceState}
use linux_pcie_dma.Device.Mmio.{virtine_fpga_mmio_read}
use linux_pcie_dma.Device.Mmio.Access.{joined_address, write_queues}
use linux_pcie_dma.Device.Machine.{GuestPc, Access, reads, writes, Machine, handle, accepts, takes}
use linux_pcie_dma.Device.Machine.Accounts.{
  IsVirtine, restored, in_hand, Merge, Accounts, Same-Accounts, has_room_lem,
}

-- What an access does to the queues.
handle_cq :
    (s : DeviceState) (a : Access)
    → ((handle s a).fpga.cq ≡ (elim a [
      | reads addr ↦ if addr == cq_head_offset_reg then (pop_head s.fpga.cq).1 else s.fpga.cq
      | writes addr val ↦ s.fpga.cq
    ]))
unfolding virtine_fpga_mmio_read
handle_cq s (reads addr) = ground arith
handle_cq s (writes addr val) = (write_queues s addr val).0

read_rq : (s : DeviceState) (addr : ℕ) → (handle s (reads addr)).fpga.rq ≡ s.fpga.rq
unfolding virtine_fpga_mmio_read
read_rq s addr = ground arith

abbrev pub accessed : Machine → GuestPc → Access → Machine
accessed m pc a = record m {
  device = handle m.device a;
  guest = pc;
  accepted = m.accepted ++ accepts m.device a;
  fetched = m.fetched ++ takes m.device a;
}

fetched-Accounts :
    (m : Machine) (pc : GuestPc) (addr : ℕ) (h : Accounts m) (clean : Fifo)
    → h.clean ≡ clean
    → addr == cq_head_offset_reg ≡ true
    → Accounts (accessed m pc (reads addr))
unfolding Fifo.pop
fetched-Accounts m pc addr h clean d here =
    let completed : Represents m.device.fpga.cq clean = rw (← d) h.holds.completed in
    let r = pop_head_refines clean completed in
    record {
      dirty = h.dirty;
      clean = (Fifo.pop clean).1;
      through = h.through;
      holds = record {
        ready = rw (read_rq m.device addr) h.holds.ready;
        completed =
            subst (λ q. Represents q (Fifo.pop clean).1)
              (sym (handle_cq m.device (reads addr) ∙ cq_here)) r.1;
      };
      taken = append-nil m.accepted ∙ h.taken;
      split = h.split;
      merged =
          subst (λ l. Merge l m.dropped h.through)
            (ap (λ q. m.fetched ++ q) d ∙ all_there clean completed r.0) h.merged;
      in_hand_nonzero = h.in_hand_nonzero;
      pending_nonzero = h.pending_nonzero;
    }
  where
    cq_here :
        (if addr == cq_head_offset_reg then (pop_head m.device.fpga.cq).1 else m.device.fpga.cq)
        ≡ (pop_head m.device.fpga.cq).1
    cq_here = rw here refl

    all_there :
        (q : Fifo)
        → Represents m.device.fpga.cq q
        → (pop_head m.device.fpga.cq).0 ≡ (Fifo.pop q).0
        → m.fetched ++ q ≡ (m.fetched ++ takes m.device (reads addr)) ++ (Fifo.pop q).1
    all_there [] r v =
        let nothing : takes m.device (reads addr) ≡ [] = ground arith in
        rw (nothing, append-nil (m.fetched ++ [])) refl
    all_there (x ∷ q) r v =
        let pos = r.nonzero.0 in
        let one : takes m.device (reads addr) ≡ x ∷ [] = ground arith in
        rw one (sym (append_assoc m.fetched (x ∷ []) q))

accepted_taken :
    (accepted done hand dirty : List ℕ) (x : ℕ) (room : Bool)
    → accepted ≡ done ++ (hand ++ dirty)
    → accepted ++ (if room then x ∷ [] else [])
      ≡ done ++ (hand ++ (if room then dirty ++ (x ∷ []) else dirty))
accepted_taken accepted done hand dirty x true h =
    ap (λ l. l ++ (x ∷ [])) h
    ∙ append_assoc done (hand ++ dirty) (x ∷ [])
    ∙ ap (λ l. done ++ l) (append_assoc hand dirty (x ∷ []))
accepted_taken accepted done hand dirty x false h = append-nil accepted ∙ h

given-Accounts :
    (m : Machine) (pc : GuestPc) (addr val : ℕ)
    → 0 < joined_address m.device val
    → Accounts m
    → addr == (rq_tail_offset_reg + 4) ≡ true
    → Accounts (accessed m pc (writes addr val))
unfolding Fifo.insert
given-Accounts m pc addr val pos h here =
    let x = joined_address m.device val in
    let room = has_room_lem h.dirty x h.holds.ready pos in
    let inserts : (handle m.device (writes addr val)).fpga.rq ≡ (insert_tail m.device.fpga.rq x).1 =
      (write_queues m.device addr val).1 ∙ rw here refl in
    let given : accepts m.device (writes addr val)
        ≡ (if Fifo.has_room h.dirty then x ∷ [] else []) =
      rw (here, room) refl in
    record {
      dirty = Fifo.insert h.dirty x;
      clean = h.clean;
      through = h.through;
      holds = record {
        ready =
            subst (λ q. Represents q (Fifo.insert h.dirty x)) (sym inserts)
              (insert_tail_refines h.dirty x h.holds.ready pos).0;
        completed = rw (write_queues m.device addr val).0 h.holds.completed;
      };
      taken = rw given (
          accepted_taken m.accepted (restored m.asked) (in_hand m.cleaner) h.dirty x
            (Fifo.has_room h.dirty) h.taken);
      split = h.split;
      merged = rw (append-nil m.fetched) h.merged;
      in_hand_nonzero = h.in_hand_nonzero;
      pending_nonzero = h.pending_nonzero;
    }

pub accessed-Accounts :
    (m : Machine) (pc : GuestPc) (a : Access)
    → IsVirtine m.device a
    → Accounts m
    → Accounts (accessed m pc a)
accessed-Accounts m pc (reads addr) ok h = elim (Bool-cases (addr == cq_head_offset_reg)) [
  | inl here ↦ fetched-Accounts m pc addr h h.clean refl here
  | inr there ↦
      Same-Accounts
        (record {
          rq = read_rq m.device addr;
          cq = ground (arith, handle_cq m.device (reads addr));
          in_hand_same = refl;
          pending_same = refl;
          restored_same = refl;
          accepted = append-nil m.accepted;
          fetched = ground (arith, append-nil m.fetched);
          dropped = refl;
        })
        h
]
accessed-Accounts m pc (writes addr val) ok h =
    elim (Bool-cases (addr == (rq_tail_offset_reg + 4))) [
      | inl here ↦ given-Accounts m pc addr val (ok (ground arith)) h here
      | inr there ↦
          Same-Accounts
            (record {
              rq = ground (arith, write_queues m.device addr val);
              cq = ground (arith, write_queues m.device addr val);
              in_hand_same = refl;
              pending_same = refl;
              restored_same = refl;
              accepted = ground (arith, append-nil m.accepted);
              fetched = append-nil m.fetched;
              dropped = refl;
            })
            h
    ]
