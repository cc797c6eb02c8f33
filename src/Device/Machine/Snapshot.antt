-- ===== src/Device/Machine/Snapshot.antt =====
-- What the clean-up thread copies over the virtines, over all interleavings:
-- qemu-fpga-char/virtine_fpga.c:356-364 with the settings of 281-297.
use linux_pcie_dma.Common.{ℕ, ◌+◌, ◌≡◌, ◌≢◌, refl, ap, sym, ◌∙◌, [], ◌∷◌, ◌++◌, List, arith}
use mathlib.Core.List.{map, map-append, append-nil}
use linux_pcie_dma.Registers.{snapshot_size_reg, snapshot_addr_reg}
use linux_pcie_dma.Device.{DeviceState}
use linux_pcie_dma.Device.Effects.{
  Effect, pci_dma_write, msi_notify, dma_writes, dma_writes-append, host_stores, host_stores-append,
}
use linux_pcie_dma.Device.Mmio.{virtine_fpga_mmio_read}
use linux_pcie_dma.Device.Mmio.Access.{write_settings}
use linux_pcie_dma.Device.Machine.Accounts.{restored}
use linux_pcie_dma.Device.Machine.{
  Access, reads, writes, Machine, handle, CleanerStep, lock, test_waits, wait, wake_spuriously,
  test_stops, test_cleans, begin, reset_doorbell, pop, copy, move, settle, decide, lock_iothread,
  raise, unlock_iothread, recount, unlock, dispatch, access, signal_bell, return, begin_unload,
  lock_uninit, stop, signal_stop, join, destroy_condition, destroy_lock, unref, Step, by_cleaner,
  by_guest, by_unload, Reach, start, later,
}

-- What the guest promises: it does not write the registers of the snapshot.
abbrev pub KeepsSnapshot : Access → Type 0
KeepsSnapshot (reads addr) = Unit
KeepsSnapshot (writes addr val) =
    (addr ≢ snapshot_size_reg) × (addr ≢ snapshot_addr_reg) × (addr ≢ snapshot_addr_reg + 4)

abbrev pub SettledStep : {m t : Machine} → Step m t → Type 0
SettledStep (by_guest (access a g b e)) = KeepsSnapshot a
SettledStep (by_guest _) = Unit
SettledStep (by_cleaner _) = Unit
SettledStep (by_unload _) = Unit

abbrev pub Settled : {s : DeviceState} {m : Machine} → Reach s m → Type 0
Settled start = Unit
Settled (later r st) = Settled r × SettledStep st

-- A virtine with the source and the size of a copy.
abbrev pub copied_from : (source size : ℕ) → ℕ → ℕ × ℕ × ℕ
copied_from source size virtine = (virtine, source, size)

record Copies (source size : ℕ) (m : Machine) : Type 0 where
  addr : m.device.fpga.snapshot_addr ≡ source
  length : m.device.fpga.snapshot_size ≡ size
  all : dma_writes m.asked ≡ map (copied_from source size) (restored m.asked)
  unstored : host_stores m.asked ≡ []

copied_firsts :
    (source size : ℕ) (vs : List ℕ) → map (λ w. w.0) (map (copied_from source size) vs) ≡ vs
copied_firsts source size [] = refl
copied_firsts source size (v ∷ vs) = ap (λ r. v ∷ r) (copied_firsts source size vs)

copied_more :
    (source size : ℕ) (ws : List (ℕ × ℕ × ℕ)) (vs : List ℕ)
    → ws ≡ map (copied_from source size) (map (λ w. w.0) ws)
    → let all = ws ++ map (copied_from source size) vs in
      all ≡ map (copied_from source size) (map (λ w. w.0) all)
copied_more source size ws vs h =
    let more = map (copied_from source size) vs in
    let firsts = map (λ (w : ℕ × ℕ × ℕ). w.0) in
    ap (λ l. l ++ more) h
    ∙ ap (λ l. map (copied_from source size) (firsts ws) ++ map (copied_from source size) l)
        (sym (copied_firsts source size vs))
    ∙ sym (map-append (copied_from source size) (firsts ws) (firsts more))
    ∙ ap (map (copied_from source size)) (sym (map-append (λ (w : ℕ × ℕ × ℕ). w.0) ws more))

restored-copy :
    (source size : ℕ) (es : List Effect) (v : ℕ)
    → dma_writes es ≡ map (copied_from source size) (restored es)
    → let fs = es ++ (pci_dma_write v source size ∷ []) in
      dma_writes fs ≡ map (copied_from source size) (restored fs)
unfolding restored
restored-copy source size es v h =
    let last = dma_writes-append es (pci_dma_write v source size ∷ []) in
    rw last (copied_more source size (dma_writes es) (v ∷ []) h)

restored-msi :
    (source size : ℕ) (es : List Effect)
    → dma_writes es ≡ map (copied_from source size) (restored es)
    → let fs = es ++ (msi_notify 0 ∷ []) in
      dma_writes fs ≡ map (copied_from source size) (restored fs)
unfolding restored
restored-msi source size es h =
    let same : dma_writes (es ++ (msi_notify 0 ∷ [])) ≡ dma_writes es =
      dma_writes-append es (msi_notify 0 ∷ []) ∙ append-nil (dma_writes es) in
    rw same h

module _ (source size : ℕ) where
  CleanerStep-Copies :
      {m t : Machine} → CleanerStep m t → Copies source size m → Copies source size t
  CleanerStep-Copies (lock a x e) h = ground arith
  CleanerStep-Copies (test_waits a x e) h = ground arith
  CleanerStep-Copies (wait a e) h = ground arith
  CleanerStep-Copies (wake_spuriously a e) h = ground arith
  CleanerStep-Copies (test_stops a x e) h = ground arith
  CleanerStep-Copies (test_cleans a x c e) h = ground arith
  CleanerStep-Copies (begin a e) h = ground arith
  CleanerStep-Copies (reset_doorbell a e) h = ground arith
  CleanerStep-Copies (pop v a x e) h = ground arith
  CleanerStep-Copies {m} (copy v a e) h = ground (
    arith,
    restored-copy source size m.asked v h.all,
    host_stores-append m.asked (pci_dma_write v source size ∷ []),
  )
  CleanerStep-Copies (move v a e) h = ground arith
  CleanerStep-Copies (settle a e) h = ground arith
  CleanerStep-Copies (decide a e) h = ground arith
  CleanerStep-Copies (lock_iothread a x e) h = ground arith
  CleanerStep-Copies {m} (raise a e) h = ground (
    arith,
    restored-msi source size m.asked h.all,
    host_stores-append m.asked (msi_notify 0 ∷ []),
  )
  CleanerStep-Copies (unlock_iothread a e) h = ground arith
  CleanerStep-Copies (recount a e) h = ground arith
  CleanerStep-Copies (unlock a e) h = ground arith

handle_snapshot :
    (s : DeviceState) (a : Access)
    → KeepsSnapshot a
    → ((handle s a).fpga.snapshot_addr ≡ s.fpga.snapshot_addr)
      × ((handle s a).fpga.snapshot_size ≡ s.fpga.snapshot_size)
unfolding virtine_fpga_mmio_read
handle_snapshot s (reads addr) k = ground arith
handle_snapshot s (writes addr val) k = ground (arith, write_settings s addr val)

module _ (source size : ℕ) where
  Step-Copies :
      {m t : Machine}
      → (st : Step m t) → SettledStep st
      → Copies source size m
      → Copies source size t
  Step-Copies (by_cleaner st) k h = CleanerStep-Copies source size st h
  Step-Copies (by_guest (dispatch a g x e)) k h = ground arith
  Step-Copies {m} (by_guest (access a g x e)) k h = ground (arith, handle_snapshot m.device a k)
  Step-Copies (by_guest (signal_bell g e)) k h = ground arith
  Step-Copies (by_guest (return g e)) k h = ground arith
  Step-Copies (by_unload (begin_unload u x e)) k h = ground arith
  Step-Copies (by_unload (lock_uninit u x e)) k h = ground arith
  Step-Copies (by_unload (stop u e)) k h = ground arith
  Step-Copies (by_unload (signal_stop u e)) k h = ground arith
  Step-Copies (by_unload (join u ended e)) k h = ground arith
  Step-Copies (by_unload (destroy_condition u e)) k h = ground arith
  Step-Copies (by_unload (destroy_lock u e)) k h = ground arith
  Step-Copies (by_unload (unref u e)) k h = ground arith

Reach-Copies :
    {s : DeviceState} {m : Machine} (r : Reach s m)
    → Settled r
    → Copies s.fpga.snapshot_addr s.fpga.snapshot_size m
unfolding restored
Reach-Copies start k = record { addr = refl; length = refl; all = refl; unstored = refl }
Reach-Copies {s} (later r st) k =
    Step-Copies s.fpga.snapshot_addr s.fpga.snapshot_size st k.1 (Reach-Copies r k.0)

-- As long as the guest leaves the snapshot's registers alone, every virtine is restored from the
-- whole snapshot, whatever the interleaving.
pub snapshots_copied :
    {s : DeviceState} {m : Machine} (r : Reach s m)
    → Settled r
    → dma_writes m.asked
      ≡ map (copied_from s.fpga.snapshot_addr s.fpga.snapshot_size) (restored m.asked)
snapshots_copied r k = (Reach-Copies r k).all

-- Nothing stores into memory of the QEMU process.
pub nothing_stored :
    {s : DeviceState} {m : Machine} (r : Reach s m) → Settled r → host_stores m.asked ≡ []
nothing_stored r k = (Reach-Copies r k).unstored
