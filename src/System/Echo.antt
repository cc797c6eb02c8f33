-- ===== src/System/Echo.antt =====
-- The echo module of pcie-echo/pcie_fpga_echo.c bound to the device of qemu-fpga-char/virtine_fpga.c:
-- both carry the vendor 0x1172 and the device 0xe003.
use linux_pcie_dma.Common.{ℕ, ◌≡◌, ◌↔◌, some, arith, u32, get_or, [], ◌∷◌, refl}
use linux_pcie_dma.Fifo
use linux_pcie_dma.Fifo.{Fifo}
use linux_pcie_dma.Registers.{rq_head_offset_reg}
use linux_pcie_dma.Device.{Holds}
use linux_pcie_dma.Device.Mmio.{virtine_fpga_mmio_read, virtine_fpga_mmio_write}
use linux_pcie_dma.RingQueue.Pop.{head_cell}
use linux_pcie_dma.PcieEcho.{run_test, test_data}
use linux_pcie_dma.System.{System, device_bus}

pop-get_or : (q : Fifo) → (Fifo.pop q).0 ≡ get_or q 0 0
unfolding Fifo.pop
pop-get_or [] = refl
pop-get_or (x ∷ q) = refl

-- The echo test writes and reads the first register, the head of the ready queue. The device refuses
-- the write, so that the test passes exactly if the lower half of the oldest dirty virtine's
-- address happens to be the test word.
run_test_device_iff :
    (uninitialised : ℕ) (s : System) (dirty clean : Fifo)
    → Holds s.device.fpga dirty clean
    → ((run_test device_bus uninitialised (some rq_head_offset_reg) s).0 ≡ 0)
      ↔ (u32 (Fifo.pop dirty).0 ≡ test_data)
unfolding run_test device_bus virtine_fpga_mmio_read virtine_fpga_mmio_write test_data
run_test_device_iff uninitialised s dirty clean r =
    ground (arith, head_cell dirty r.ready.stores, pop-get_or dirty)
