-- ===== src/System/Handler/Fetched.antt =====
-- What the handler stores while the clean-up thread works.
use linux_pcie_dma.Common.{ℕ, ◌+◌, ◌≡◌, List, [], ◌++◌}
use linux_pcie_dma.Fifo
use linux_pcie_dma.Fifo.{Fifo}
use linux_pcie_dma.Registers.Driver
use linux_pcie_dma.RingQueue.Invariant.{Represents}
use linux_pcie_dma.Device.Machine.Batch.{CleanerSteps}
use linux_pcie_dma.Device.{DeviceState}
use linux_pcie_dma.Device.Machine.{Machine}
use linux_pcie_dma.Driver.Irq.Bounds.{Serves}
use linux_pcie_dma.System.Handler.{read_at, machine_bus}
use linux_pcie_dma.System.Handler.Run.{Run}
use linux_pcie_dma.System.Handler.Fetch.{Fetch}

-- A read of the completed queue that finds it empty leads to `after`: its first access gets in at
-- `found`, the thread goes on, and then its second access gets in. What was fetched up to `found` is
-- `fetched`.
pub record FindsNothing (fetched : List ℕ) (after : Machine) : Type 0 where
  pub found : Machine
  pub entered : Machine
  pub fetched_before : found.fetched ≡ fetched
  pub empty : Represents found.device.fpga.cq []
  pub between : CleanerSteps (read_at found Driver.cq_head_offset_reg) entered
  pub ended : after ≡ read_at entered (Driver.cq_head_offset_reg + 4)

-- The reads of the handler from here on.
record Handles (s : DeviceState) (m : Machine) (entries : List Machine) : Type 0 where
  got : List ℕ
  final : Machine × List Machine
  serves : Serves machine_bus (m, entries) got final
  run : Run s final.0
  accepted : final.0.accepted ≡ m.accepted
  fetched : final.0.fetched ≡ m.fetched ++ got
  last : FindsNothing (m.fetched ++ got) final.0
