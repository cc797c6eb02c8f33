-- ===== src/PcieEcho/Echo.antt =====
-- When the echo test of pcie-echo/pcie_fpga_echo.c passes.
use linux_pcie_dma.Common.{ℕ, ◌≡◌, ◌↔◌, true, none, some, Option, ℤ, arith, pos}
use linux_pcie_dma.Driver.{Mmio}
use linux_pcie_dma.PcieEcho.{ProbeCalls, Probed, returned, oopsed, test_data, run_test, echo_probe}

-- What the probe reports, none if it does not return.
abbrev reported : {S : Type 0} → Probed S → Option ℤ
reported (returned error log s) = some error
reported (oopsed log s) = none

module _ {S : Type 0} (memory : Mmio S) where
  -- With the device's memory mapped, the test makes one write and one read of it, and answers 0
  -- exactly if the read gives the word that was written. With no driver data it leaves the device
  -- alone and compares the word with what was in its variable before.
  pub run_test_lem :
      (uninitialised dev_mem : ℕ) (s : S)
      → let stored = memory.iowrite32 test_data dev_mem s in
        (((run_test memory uninitialised (some dev_mem) s).0 ≡ 0)
          ↔ ((memory.ioread32 stored dev_mem).0 ≡ test_data))
        × ((run_test memory uninitialised (some dev_mem) s).1 ≡ (memory.ioread32 stored dev_mem).1)
        × (((run_test memory uninitialised none s).0 ≡ 0) ↔ (uninitialised ≡ test_data))
        × ((run_test memory uninitialised none s).1 ≡ s)
  unfolding run_test
  run_test_lem uninitialised dev_mem s = ground arith

  -- With the registers mapped at `dev_mem`, the probe succeeds exactly if every call before did and
  -- the device echoed the word.
  pub echo_probe_success_iff :
      (uninitialised dev_mem : ℕ) (c : ProbeCalls) (s : S)
      → c.dev_mem ≡ some dev_mem
      → (reported (echo_probe memory uninitialised c s) ≡ some (pos 0)) ↔ (
          (c.enable_device ≡ pos 0)
          × (c.enable_device_mem ≡ pos 0)
          × (c.request_region ≡ pos 0)
          × (c.allocated ≡ true)
          × ((run_test memory uninitialised (some dev_mem) s).0 ≡ 0))
  unfolding echo_probe
  echo_probe_success_iff uninitialised dev_mem c s e = ground arith
