-- ===== src/TestPrograms/Give.antt =====
-- main of fpga-char-test/test-give-virtine.c:13-59, and what it does to the device.
use Prim.Native.String.{String}
use linux_pcie_dma.Common.{
  ℕ, ◌^◌, ◌<◌, ◌≡◌, refl, ap, List, [], ◌∷◌, some, if◌then◌else◌, ltb, length, pos, negsuc,
  is_below,
}
use linux_pcie_dma.Fifo
use linux_pcie_dma.Fifo.{Fifo}
use linux_pcie_dma.Device.{Holds}
use linux_pcie_dma.Driver.Chardev.{fpga_char_write}
use linux_pcie_dma.System.{System, device_bus}
use linux_pcie_dma.System.Snapshot.{Holds64}
use linux_pcie_dma.System.Transfer.{IsKept, give_virtine_lem}
use linux_pcie_dma.TestPrograms.{SystemCalls, Outcome, exits, exit_success, exit_failure}

-- The program's offset for the tail of the ready queue.
abbrev pub rq_tail_offset : ℕ
rq_tail_offset = 0x8

-- `virtine_to_clean` is the pointer that malloc gave; it is the value written, as `&virtine_to_clean`
-- is the buffer.
unfoldable pub test_give_virtine :
    {S : Type 0} → SystemCalls S → (virtine_to_clean : ℕ) → List String → S → Outcome × S
test_give_virtine calls virtine_to_clean argv s =
    if ltb 1 (length argv)
    then (exits exit_failure, s)
    else let (virtine_fd, s') = calls.open_virtine_fpga s in
      elim virtine_fd [
        | negsuc n ↦ (exits (calls.errno s'), s')
        | pos fd ↦
            let (bytes_handled, s'') = calls.pwrite s' fd virtine_to_clean rq_tail_offset in
            if is_below bytes_handled 0
            then (exits exit_failure, calls.close s'' fd)
            else (exits exit_success, s'')
      ]

-- pwrite of an `unsigned long` as it comes to the driver: the value lies in user memory at
-- `buffer`, and the count that fpga_char_write returns is the call's.
pub record ReachesDriver (calls : SystemCalls System) (copy_from_user : ℕ → ℕ → ℕ × ℕ) (buffer : ℕ)
    : Type 0 where
  pub holds : (val : ℕ) → val < 2 ^ 64 → Holds64 (copy_from_user val) buffer val
  pub writes :
      (s after : System) (fd val offset count : ℕ)
      → fpga_char_write device_bus (copy_from_user val) 3 s buffer 8 offset ≡ some (count, after)
      → calls.pwrite s fd val offset ≡ (pos count, after)

-- Run without arguments on a file that opens without a change to the device, the program ends with
-- status 0. What it puts last in the ready queue, if there is room, is its own pointer, and neither
-- the doorbell nor any other part of the device changes.
pub test_give_virtine_lem :
    (calls : SystemCalls System) (copy_from_user : ℕ → ℕ → ℕ × ℕ) (s : System)
    (fd buffer virtine_to_clean : ℕ) (program : String) (dirty clean : Fifo)
    → ReachesDriver calls copy_from_user buffer
    → calls.open_virtine_fpga s ≡ (pos fd, s)
    → Holds s.device.fpga dirty clean
    → 0 < virtine_to_clean
    → virtine_to_clean < 2 ^ 64
    → (after : System) × (test_give_virtine calls virtine_to_clean (program ∷ []) s
        ≡ (exits exit_success, after))
      × Holds after.device.fpga (Fifo.insert dirty virtine_to_clean) clean
      × IsKept s after
unfolding test_give_virtine
test_give_virtine_lem calls copy s fd buffer virtine program dirty clean reaches opened h low high =
    let (after, written, holds, kept) =
      give_virtine_lem (copy virtine) s buffer virtine dirty clean h (reaches.holds virtine high)
        low in
    (
      after,
      rw
          (
            ap (λ r. r.0) opened,
            ap (λ r. r.1) opened,
            reaches.writes s after fd virtine rq_tail_offset 8 written,
          )
          refl,
      holds,
      kept,
    )
