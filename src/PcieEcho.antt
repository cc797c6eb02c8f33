-- ===== src/PcieEcho.antt =====
-- The kernel module of pcie-echo/: echo_probe, echo_remove, release_device and run_test,
-- pcie-echo/pcie_fpga_echo.c:45-185, over any device memory. `S` is all that an access can read or
-- change; the outcomes of the kernel's calls are given.
pub mod Echo
pub mod Module
use linux_pcie_dma.Common.{
  ℕ, Bool, true, false, not, Option, none, some, List, [], ◌∷◌, ◌++◌, ◌==◌, if◌then◌else◌, ℤ, pos,
  is_nonzero, minus_enomem,
}
use linux_pcie_dma.Driver.{Mmio}
use linux_pcie_dma.Driver.Resources.{
  Event, takes, gives, private_struct, device_enabled, memory_region, mapping,
}

-- What pci_get_drvdata gives, and where its BAR is mapped: none for NULL.
abbrev pub DrvData : Type 0
DrvData = Option ℕ

-- The outcomes of the calls in echo_probe. `dev_mem` is where ioremap maps the BAR, none for NULL,
-- which the code does not test.
pub record ProbeCalls : Type 0 where
  pub enable_device : ℤ
  pub enable_device_mem : ℤ
  pub request_region : ℤ
  pub allocated : Bool
  pub dev_mem : Option ℕ

-- How echo_probe ends: it returns an error, with the log of what was taken and given back and the
-- state, or its test accesses the device through NULL, which ends the kernel's thread.
pub data Probed (S : Type 0) : Type 0 where
  returned : ℤ → List Event → S → Probed S
  oopsed : List Event → S → Probed S

unfoldable pub test_data : ℕ
test_data = 0xdeadbeef

unfoldable pub release_device : List Event
release_device = gives memory_region ∷ gives device_enabled ∷ []

module _ {S : Type 0} (memory : Mmio S) where
  unfoldable pub write_sample_data : DrvData → ℕ → S → S
  write_sample_data none word s = s
  write_sample_data (some dev_mem) word s = memory.iowrite32 word dev_mem s

  -- The variable that is read into, as it was, comes first.
  unfoldable pub read_sample_data : ℕ → DrvData → S → ℕ × S
  read_sample_data old none s = (old, s)
  read_sample_data old (some dev_mem) s = memory.ioread32 s dev_mem

  -- 0 on success. `uninitialised` is what `data_read` held.
  unfoldable pub run_test : (uninitialised : ℕ) → DrvData → S → ℕ × S
  unfolding write_sample_data read_sample_data test_data
  run_test uninitialised fpga s =
      let (data_read, s') =
        read_sample_data uninitialised fpga (write_sample_data fpga test_data s) in
      (if not (data_read == test_data) then 1 else 0, s')

  unfoldable pub echo_probe : (uninitialised : ℕ) → ProbeCalls → S → Probed S
  unfolding run_test release_device
  echo_probe uninitialised c s =
      if is_nonzero c.enable_device
      then returned c.enable_device [] s
      else if is_nonzero c.enable_device_mem
      then returned c.enable_device_mem (takes device_enabled ∷ []) s
      else if is_nonzero c.request_region
      then returned c.request_region
          (takes device_enabled ∷ takes device_enabled ∷ gives device_enabled ∷ []) s
      else if not c.allocated
      then returned minus_enomem
          (takes device_enabled ∷ takes device_enabled ∷ takes memory_region ∷ release_device) s
      else (let log =
            takes device_enabled
            ∷ takes device_enabled
            ∷ takes memory_region
            ∷ takes private_struct
            ∷ [] in
          elim c.dev_mem [
            | none ↦ oopsed log s
            | some dev_mem ↦
                let (error, s') = run_test uninitialised (some dev_mem) s in
                returned (pos error) (log ++ (takes mapping ∷ [])) s'
          ])

-- `present` says whether the driver data is not NULL.
unfoldable pub echo_remove : (present : Bool) → List Event
unfolding release_device
echo_remove present = if present then gives private_struct ∷ release_device else release_device
