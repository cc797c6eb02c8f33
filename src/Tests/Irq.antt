-- ===== src/Tests/Irq.antt =====
-- The interrupt handler on a device that cleans further virtines while it is read.
use linux_pcie_dma.Common.{
  ℕ, zero, suc, ◌≤◌, ◌≡◌, ◌↔◌, refl, some, [], ◌∷◌, ◌==◌, if◌then◌else◌, replicate, arith,
}
use linux_pcie_dma.Registers.Driver.{cq_head_offset_reg}
use linux_pcie_dma.Driver.{Mmio}
use linux_pcie_dma.Driver.Chardev.{fpga_char_read_kernel, read_while}
use linux_pcie_dma.Driver.Irq.{fetch_clean_virtines}
use linux_pcie_dma.Driver.Irq.Bounds.{
  numbered, Inside, Serves, dry, next, fetch_clean_virtines_bounds,
}

-- The state counts the addresses that the device will have served, each of them 7.
abbrev serve_one : ℕ → ℕ × ℕ
serve_one zero = (0, 0)
serve_one (suc more) = (7, more)

abbrev busy_device : Mmio ℕ
busy_device = record {
  ioread32 = λ more at. if at == cq_head_offset_reg then serve_one more else (0, more);
  iowrite32 = λ word at more. more;
}

busy_device-Serves : (more : ℕ) → Serves busy_device more (replicate more 7) 0
unfolding fpga_char_read_kernel read_while
busy_device-Serves zero =
    dry {s = 0} {after = 0} {words = (0, 0) ∷ (4, 0) ∷ []} refl (λ old. omega arith)
busy_device-Serves (suc more) =
    next {s = suc more} {middle = more} {words = (0, 7) ∷ (4, 0) ∷ []} refl (λ old. omega arith)
      (omega arith) (busy_device-Serves more)

-- One address more than the array has places.
fetch_clean_virtines_bounds_example :
    (fetch_clean_virtines busy_device 102 101 ≡ some (numbered 0 (replicate 101 7), 0))
    × (Inside (numbered 0 (replicate 101 7)) ↔ (101 ≤ 100))
fetch_clean_virtines_bounds_example =
    fetch_clean_virtines_bounds busy_device 102 101 0 (replicate 101 7) (busy_device-Serves 101)
      (omega arith)
