-- ===== src/Tests/Programs.antt =====
-- Runs and instances for the sample device and the test programs.
use linux_pcie_dma.Common.{
  ℕ, ◌/◌, ◌^◌, ◌≡◌, inl, refl, none, some, List, [], ◌∷◌, ◌==◌, if◌then◌else◌, take, replicate, pos,
  negsuc, arith, u32,
}
use linux_pcie_dma.SampleChar.{SampleChar, sample_char_read}
use linux_pcie_dma.SampleChar.Queue.{opens, reads, writes, releases, run, sample_char_read_lem}
use linux_pcie_dma.Fifo
use linux_pcie_dma.Device.{Holds}
use linux_pcie_dma.Driver.Chardev.{fpga_char_write}
use linux_pcie_dma.System.{System, device_bus}
use linux_pcie_dma.System.Transfer.{IsKept}
use linux_pcie_dma.TestPrograms.{SystemCalls, exits}
use linux_pcie_dma.TestPrograms.Give.{test_give_virtine, ReachesDriver, test_give_virtine_lem}
use linux_pcie_dma.Samples.{idle_device, idle_device-Holds, system_of}

abbrev fresh : SampleChar
fresh = record { major_num = pos 240; msg = replicate 100 7; msg_last_char = 0 }

-- The user's memory is one list. No copy reaches a kernel address, and each from user space gives
-- the list.
abbrev refuse : List ℕ → (to from count : ℕ) → ℕ × List ℕ
refuse memory to from count = (count, memory)

abbrev copy_list : List ℕ → (from count : ℕ) → ℕ × List ℕ
copy_list memory from count = (0, take count memory)

-- A file that was opened and written, then closed and read twice through another descriptor.
sample_char_read_example :
    let after =
      (run 1000 refuse copy_list
        (opens ∷ writes 0 3 ∷ reads 0 3 ∷ releases ∷ [])
        (fresh, 65 ∷ 66 ∷ 67 ∷ [])).0 in
    sample_char_read 1000 refuse
      (run 1000 refuse copy_list
        (opens ∷ writes 0 3 ∷ reads 0 3 ∷ releases ∷ [])
        (fresh, 65 ∷ 66 ∷ 67 ∷ []))
      0
      5
    ≡ (5, (record after { msg_last_char = 1000 }, 65 ∷ 66 ∷ 67 ∷ []))
sample_char_read_example =
    sample_char_read_lem 1000 refuse copy_list (omega arith) (omega arith)
      (λ memory from count. refl) (opens ∷ writes 0 3 ∷ reads 0 3 ∷ releases ∷ []) fresh
      (65 ∷ 66 ∷ 67 ∷ []) 0 5 (tt, (omega arith, (tt, (tt, tt)))) (inl refl)

-- The file opens with descriptor 3, and pwrite goes to the driver.
abbrev val_at_64 : ℕ → ℕ → ℕ × ℕ
val_at_64 val address = if address == 64 then (0, u32 val) else (0, val / 2 ^ 32)

abbrev driver_calls : SystemCalls System
driver_calls = record {
  open_virtine_fpga = λ s. (pos 3, s);
  pread = λ s fd offset. ((negsuc 4, 0), s);
  pwrite = λ s fd val offset. elim (fpga_char_write device_bus (val_at_64 val) 3 s 64 8 offset) [
    | none ↦ (negsuc 4, s)
    | some (count, after) ↦ (pos count, after)
  ];
  ioctl = λ s fd call. (negsuc 24, s);
  close = λ s fd. s;
  errno = λ s. 0;
}

driver_calls-ReachesDriver : ReachesDriver driver_calls val_at_64 64
driver_calls-ReachesDriver = record {
  holds = λ val h. record { word = h; low = refl; high = refl };
  writes = λ s after fd val offset count e. rw (e, driver_calls) refl;
}

test_give_virtine_example :
    (after : System) × (test_give_virtine driver_calls 0x100005000
        ("test-give-virtine" ∷ [])
        (system_of idle_device)
      ≡ (exits 0, after))
    × Holds after.device.fpga (Fifo.insert [] 0x100005000) []
    × IsKept (system_of idle_device) after
test_give_virtine_example =
    test_give_virtine_lem driver_calls val_at_64 (system_of idle_device) 3 64 0x100005000
      "test-give-virtine" [] [] driver_calls-ReachesDriver refl idle_device-Holds (omega arith)
      (omega arith)
