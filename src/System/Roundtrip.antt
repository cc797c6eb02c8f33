-- ===== src/System/Roundtrip.antt =====
-- One use of the co-processor from end to end: the driver hands virtines over (fpga_char_write),
-- rings the doorbell (fpga_char_ioctl), the device's thread cleans a batch
-- (virtine_fpga_virtine_cleanup), and the driver's handler fetches the clean ones
-- (fetch_clean_virtines).
use linux_pcie_dma.Common.{
  ℕ, not, false, zero, suc, ltb, ◌&&◌, if◌then◌else◌, ◌*◌, sym, ◌+◌, ◌^◌, ◌≤◌, ◌<◌, ◌≡◌, refl, ap,
  ◌∙◌, true, Option, none, some, List, [], ◌∷◌, ◌++◌, arith, All, length, take_all,
}
use mathlib.Core.List.{map, append-nil}
use mathlib.Core.Path.{subst, fun_ext}
use linux_pcie_dma.Registers.{num_possible_virtines}
use linux_pcie_dma.Registers.Driver
use linux_pcie_dma.Fifo
use linux_pcie_dma.Fifo.{Fifo}
use linux_pcie_dma.Fifo.Laws.{insert_all-eq-take}
use linux_pcie_dma.RingQueue.Invariant.{Represents}
use linux_pcie_dma.Device.{VirtineFpgaDevice, Holds}
use linux_pcie_dma.Device.Effects.{
  Effect, dma_writes, interrupts, num_signals, num_signals-append, cond_signal,
}
use linux_pcie_dma.Device.Cleanup.{process_batch}
use linux_pcie_dma.Device.Cleanup.Rounds.{IsCounting, restore}
use linux_pcie_dma.Device.Cleanup.Batch.{process_batch_lem}
use linux_pcie_dma.Driver.Chardev.{fpga_char_write, fpga_char_ioctl, fpga_char_ring_doorbell}
use linux_pcie_dma.Driver.Irq.Bounds.{numbered}
use linux_pcie_dma.Driver.Irq.{fetch_clean_virtines}
use linux_pcie_dma.System.{System, device_bus}
use linux_pcie_dma.System.Snapshot.{Holds64, ring_doorbell_lem}
use linux_pcie_dma.System.Transfer.{
  IsKept, IsKept-refl, IsKept-trans, give_virtine_lem, fetch_clean_virtines_lem,
}

infixl 5 ◌>>=◌
abbrev ◌>>=◌ {ℓ κ} : {A : Type ℓ} {B : Type κ} → Option A → (A → Option B) → Option B
none >>= f = none
some a >>= f = f a

IsKept-IsCounting :
    {s given : System}
    → IsKept s given
    → IsCounting s.device.fpga
    → IsCounting (record given.device.fpga { doorbell = true })
IsKept-IsCounting k c = ground arith

restore_kept :
    {s given : System}
    → IsKept s given
    → restore (record given.device.fpga { doorbell = true }) ≡ restore s.device.fpga
restore_kept k = fun_ext λ v. ground arith

-- The remainder is below the factor, so that the factor fits at least once.
raised_often :
    (raised factor left cleaned : ℕ)
    → raised * factor + left ≡ cleaned
    → left < factor
    → factor ≤ cleaned
    → (0 < raised) × (raised * factor ≤ cleaned) × (cleaned < raised * factor + factor)
raised_often zero factor left cleaned e l enough = absurd (omega arith)
raised_often (suc raised) factor left cleaned e l enough = (omega arith, omega arith, omega arith)

module _ (copy_from_user : ℕ → ℕ × ℕ) where
  -- One eight-byte write at RQ_TAIL_OFFSET_REG for each user buffer.
  give_virtines : System → List ℕ → Option System
  give_virtines s [] = some s
  give_virtines s (buffer ∷ buffers) =
      fpga_char_write device_bus copy_from_user 3 s buffer 8 Driver.rq_tail_offset_reg >>= λ given.
      give_virtines given.1 buffers

  -- The thread, asleep before the request, takes up a batch if it is woken, finds the doorbell set,
  -- and is not to stop.
  clean_batch : (before after : System) → Option (List Effect × System)
  clean_batch before after =
      let woken = ltb (num_signals before.asked) (num_signals after.asked) in
      if woken && after.device.fpga.doorbell && not after.device.fpga.stopping
      then (process_batch after.device.fpga >>= λ out. some (
        out.1,
        record after {
          device = record after.device { fpga = out.0 };
          asked = after.asked ++ out.1;
        },
      ))
      else some ([], after)

  -- The handler, once for each interrupt: what its runs store, one after the other.
  answer_interrupts : ℕ → System → Option (List (ℕ × ℕ) × System)
  answer_interrupts zero s = some ([], s)
  answer_interrupts (suc raised) s = do
    first ← fetch_clean_virtines device_bus (num_possible_virtines + 1) s
    rest ← answer_interrupts raised first.1
    some (first.0 ++ rest.0, rest.1)

  -- What the handler stored, what the batch asked of QEMU, and the system at the end.
  pub clean_virtines : System → List ℕ → Option (List (ℕ × ℕ) × List Effect × System)
  unfolding give_virtines clean_batch answer_interrupts
  clean_virtines s buffers = do
    given ← give_virtines s buffers
    rung ← fpga_char_ioctl device_bus copy_from_user given fpga_char_ring_doorbell 0
    batch ← clean_batch given rung.2
    fetched ← answer_interrupts (interrupts batch.0) batch.1
    some (fetched.0, batch.0, fetched.1)

  -- Each buffer holds the address of a virtine, in order.
  abbrev pub Buffers : List ℕ → List ℕ → Type 0
  Buffers [] [] = Unit
  Buffers [] (a ∷ as') = ⊥
  Buffers (b ∷ bs) [] = ⊥
  Buffers (b ∷ bs) (a ∷ as') = Holds64 copy_from_user b a × (0 < a) × Buffers bs as'

  give_virtines_lem :
      (s : System) (buffers addresses : List ℕ) (dirty clean : Fifo)
      → Holds s.device.fpga dirty clean
      → Buffers buffers addresses
      → (after : System) × (give_virtines s buffers ≡ some after)
        × Holds after.device.fpga (Fifo.insert_all dirty addresses) clean
        × IsKept s after
  unfolding give_virtines Fifo.insert_all
  give_virtines_lem s [] [] dirty clean r h = (s, refl, r, IsKept-refl s)
  give_virtines_lem s [] (a ∷ as') dirty clean r h = absurd h
  give_virtines_lem s (b ∷ bs) [] dirty clean r h = absurd h
  give_virtines_lem s (b ∷ bs) (a ∷ as') dirty clean r h =
      let (middle, wrote, held, kept) =
        give_virtine_lem copy_from_user s b a dirty clean r h.0 h.1 in
      let (after, rest, held', kept') =
        give_virtines_lem middle bs as' (Fifo.insert dirty a) clean held h.2 in
      (after, rw wrote rest, held', IsKept-trans kept kept')

  Buffers-words : (bs as' : List ℕ) → Buffers bs as' → All (λ a. a < 2 ^ 64) as'
  Buffers-words [] [] h = tt
  Buffers-words [] (a ∷ as') h = absurd h
  Buffers-words (b ∷ bs) [] h = absurd h
  Buffers-words (b ∷ bs) (a ∷ as') h = (h.0.word, Buffers-words bs as' h.2)

  abbrev ring : System → System
  ring s = record s {
    device = record s.device { fpga = record s.device.fpga { doorbell = true } };
    asked = s.asked ++ (cond_signal ∷ []);
  }

  abbrev batched : System → List Effect → VirtineFpgaDevice → System
  batched s effects fpga = record s {
    device = record s.device { fpga = fpga };
    asked = s.asked ++ effects;
  }

  -- A ring wakes the thread.
  clean_batch_rung :
      (given : System) (cleaned : VirtineFpgaDevice) (effects : List Effect)
      → given.device.fpga.stopping ≡ false
      → process_batch (ring given).device.fpga ≡ some (cleaned, effects)
      → clean_batch given (ring given) ≡ some (effects, batched (ring given) effects cleaned)
  unfolding clean_batch
  clean_batch_rung given cleaned effects runs batch =
      let more : ltb (num_signals given.asked) (num_signals (ring given).asked) ≡ true =
        rw (num_signals-append given.asked (cond_signal ∷ [])) (ground arith) in
      rw (more, batch, runs) refl

  -- On an empty queue the handler stores nothing, however often it runs.
  answer_interrupts_idle :
      (raised : ℕ) (s : System)
      → Holds s.device.fpga [] []
      → (after : System) × (answer_interrupts raised s ≡ some ([], after))
        × Holds after.device.fpga [] []
  unfolding answer_interrupts
  answer_interrupts_idle zero s h = (s, refl, h)
  answer_interrupts_idle (suc raised) s h =
      let (middle, fetch, _, held, _) =
        fetch_clean_virtines_lem (num_possible_virtines + 1) s [] [] (omega arith) h tt in
      let (after, rest, held') = answer_interrupts_idle raised middle held in
      (after, rw (fetch, rest) refl, held')

  -- The first run fetches all.
  answer_interrupts_lem :
      (raised : ℕ) (s : System) (clean : Fifo)
      → 0 < raised
      → Holds s.device.fpga [] clean
      → All (λ a. a < 2 ^ 64) clean
      → (after : System) × (answer_interrupts raised s ≡ some (numbered 0 clean, after))
        × Holds after.device.fpga [] []
  unfolding answer_interrupts
  answer_interrupts_lem zero s clean pos h small = absurd (omega arith)
  answer_interrupts_lem (suc raised) s clean pos h small =
      let (middle, fetch, _, held, _) =
        fetch_clean_virtines_lem (num_possible_virtines + 1) s [] clean
          (omega (arith, h.completed.stores.fits)) h small in
      let (after, rest, held') = answer_interrupts_idle raised middle held in
      (after, rw (fetch, rest, append-nil (numbered 0 clean)) refl, held')

  run :
      (s given : System) (cleaned : VirtineFpgaDevice) (buffers : List ℕ) (effects : List Effect)
      (stores : List (ℕ × ℕ)) (after : System)
      → give_virtines s buffers ≡ some given
      → given.device.fpga.stopping ≡ false
      → process_batch (ring given).device.fpga ≡ some (cleaned, effects)
      → answer_interrupts (interrupts effects) (batched (ring given) effects cleaned)
        ≡ some (stores, after)
      → clean_virtines s buffers ≡ some (stores, effects, after)
  unfolding clean_virtines
  run s given cleaned buffers effects stores after gives runs batch fetch =
      rw
        (
          gives,
          ring_doorbell_lem copy_from_user given 0,
          clean_batch_rung given cleaned effects runs batch,
          fetch,
        )
        refl

  -- From a device with empty queues that is not stopping, whose counter is below the batch factor,
  -- at most a hundred virtines handed over by the driver, none at address 0, enough to fill the
  -- batch factor with those counted already, with driver, thread and handler one after the other:
  -- one ring of the doorbell wakes the thread, which copies the snapshot over each virtine once, in
  -- order, and raises an interrupt for every `batch_factor` virtines counted; the handler, run once
  -- for each interrupt, stores exactly their addresses, in order, and both queues are empty again.
  pub clean_virtines_lem :
      (s : System) (buffers addresses : List ℕ)
      → Holds s.device.fpga [] []
      → s.device.fpga.stopping ≡ false
      → IsCounting s.device.fpga
      → Buffers buffers addresses
      → length addresses ≤ num_possible_virtines
      → s.device.fpga.batch_factor ≤ s.device.fpga.num_virtines_cleaned_already + length addresses
      → (effects : List Effect) × (after : System) × (clean_virtines s buffers
          ≡ some (numbered 0 addresses, effects, after))
        × (dma_writes effects ≡ map (restore s.device.fpga) addresses)
        × (interrupts effects * s.device.fpga.batch_factor
            ≤ s.device.fpga.num_virtines_cleaned_already + length addresses)
        × (s.device.fpga.num_virtines_cleaned_already + length addresses
            < interrupts effects * s.device.fpga.batch_factor + s.device.fpga.batch_factor)
        × Holds after.device.fpga [] []
  clean_virtines_lem s buffers addresses r runs c h few enough =
      let (given, gives, held, kept) = give_virtines_lem s buffers addresses [] [] r h in
      let taken : Fifo.insert_all [] addresses ≡ addresses =
        insert_all-eq-take [] addresses (omega arith)
        ∙ take_all num_possible_virtines addresses few in
      let rung : System = ring given in
      let (cleaned, effects, batch, held', copied, counted, below, _, _, _, factor, _) =
        process_batch_lem rung.device.fpga addresses []
          (record {
            ready = subst (Represents rung.device.fpga.rq) taken held.ready;
            completed = held.completed;
          })
          (IsKept-IsCounting kept c) in
      let clean_now : Holds cleaned [] addresses =
        subst (Holds cleaned []) (take_all num_possible_virtines addresses few) held' in
      let (some_raised, most, least) =
        raised_often (interrupts effects) s.device.fpga.batch_factor
          cleaned.num_virtines_cleaned_already
          (s.device.fpga.num_virtines_cleaned_already + length addresses)
          (ap (λ f. interrupts effects * f + cleaned.num_virtines_cleaned_already)
              (sym kept.batch_factor)
            ∙ counted
            ∙ ap (λ n. n + length addresses) kept.counter)
          (omega (arith, below, factor, kept.batch_factor)) enough in
      let (after, fetch, held'') =
        answer_interrupts_lem (interrupts effects) (batched rung effects cleaned) addresses
          some_raised (record { ready = clean_now.ready; completed = clean_now.completed })
          (Buffers-words buffers addresses h) in
      (
        effects,
        after,
        run s given cleaned buffers effects (numbered 0 addresses) after gives
            (kept.stopping ∙ runs) batch fetch,
        copied ∙ ap (λ f. map f addresses) (restore_kept kept),
        most,
        least,
        held'',
      )
