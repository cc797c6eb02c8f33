-- ===== src/Tests/Driver.antt =====
-- Runs and instances for the kernel modules: transfers, files, probing, and the echo module.
use linux_pcie_dma.Common.{
  none, inl, ℕ, ◌+◌, ◌*◌, ◌^◌, ◌/◌, ◌≤◌, ◌≡◌, ◌↔◌, ◌⊎◌, refl, Bool, true, false, some, List, [],
  ◌∷◌, arith, All, set, get_or, pos,
}
use mathlib.Core.List.{map}
use linux_pcie_dma.Driver.{Mmio}
use linux_pcie_dma.Driver.Chardev.{fpga_char_read_kernel}
use linux_pcie_dma.Driver.Chardev.Transfer.{word_offsets, fpga_char_read_kernel_lem}
use linux_pcie_dma.Driver.Chardev.Files.{freed, handler_private_data}
use linux_pcie_dma.Driver.Chardev.{fpga_char_ring_doorbell}
use linux_pcie_dma.Driver.Chardev.History.{
  opens, closes, loaded, after, latest, handler_private_data_lem,
}
use linux_pcie_dma.Driver.Chardev.Requests.{
  IoctlMacros, request_of, call_number, request_of-call_number,
}
use linux_pcie_dma.TestPrograms.{ring_doorbell}
use linux_pcie_dma.Driver.Resources.{Event}
use linux_pcie_dma.Driver.Probe.{ProbeCalls, fpga_probe}
use linux_pcie_dma.Driver.Probe.Balance.{
  InterruptsReady, RegionReady, CharDevsMade, fpga_probe_success_iff,
}
use linux_pcie_dma.PcieEcho
use linux_pcie_dma.PcieEcho.{run_test, test_data, echo_probe, echo_remove}
use linux_pcie_dma.PcieEcho.Module.{
  Attachment, Life, ended, faulted, IsDocumented, Leaves, attach, module_life, module_leaks,
}

-- A memory of words, addressed in words, as `S`.
abbrev word_memory : Mmio (List ℕ)
word_memory = record {
  ioread32 = λ memory at. (get_or memory at 0, memory);
  iowrite32 = λ word at memory. set memory at word;
}

abbrev words : List ℕ
words = 10 ∷ 0 ∷ 0 ∷ 0 ∷ 14 ∷ 0 ∷ 0 ∷ 0 ∷ 18 ∷ []

-- Nine bytes take three words, which do not fit eight bytes.
fpga_char_read_kernel_example :
    (stores : List (ℕ × ℕ)) × (final : List ℕ) × (fpga_char_read_kernel word_memory 4 words 9 0
      ≡ some (4 * ((9 + 3) / 4), stores, final))
    × (map (λ w. w.0) stores ≡ word_offsets ((9 + 3) / 4) 0)
    × (All (λ w. w.0 + 4 ≤ 8) stores ↔ (4 * ((9 + 3) / 4) ≤ 8))
fpga_char_read_kernel_example =
    fpga_char_read_kernel_lem word_memory 4 words 9 0 8 refl (omega arith)

-- Every call succeeds.
abbrev all_well : ProbeCalls
all_well = record {
  allocated = true;
  enable_device = pos 0;
  enable_device_mem = pos 0;
  request_region = pos 0;
  alloc_irq_vectors = pos 1;
  request_irq = pos 0;
  mmio_start = 0xfe000000;
  mmio_len = 0x40000000;
  remapped = true;
  char_devs = record { alloc_chrdev_region = pos 0; class_created = true; cdev_add = pos 0 };
}

-- The mapping fails, and the probe reports success.
abbrev unmapped : ProbeCalls
unmapped = record all_well { remapped = false }

fpga_probe_success_example : ((fpga_probe unmapped).0 ≡ pos 0) ↔ (
    (InterruptsReady unmapped × (◌≡◌ {A = Bool} false true) × CharDevsMade unmapped.char_devs)
    ⊎ (RegionReady unmapped × (pos 1 ≡ pos 0))
    ⊎ (InterruptsReady unmapped × (◌≡◌ {A = Bool} false false) × (pos 0 ≡ pos 0))
    ⊎ (InterruptsReady unmapped
        × (◌≡◌ {A = Bool} false true)
        × (pos 0 ≡ pos 0)
        × (◌≡◌ {A = Bool} true false)))
fpga_probe_success_example = fpga_probe_success_iff unmapped

unmapped_succeeds : (fpga_probe unmapped).0 ≡ pos 0
unfolding fpga_probe
unmapped_succeeds = refl

abbrev echo_well : PcieEcho.ProbeCalls
echo_well = record {
  enable_device = pos 0;
  enable_device_mem = pos 0;
  request_region = pos 0;
  allocated = true;
  dev_mem = some 0;
}

-- Two attachments, of which the second finds no memory for its struct.
abbrev echoed : List Attachment
echoed =
    record { uninitialised = 7; calls = echo_well }
    ∷ record { uninitialised = 7; calls = record echo_well { allocated = false } }
    ∷ []

echoed-IsDocumented : All IsDocumented echoed
echoed-IsDocumented = (
  record { enable_device = inl refl; enable_device_mem = inl refl; request_region = inl refl },
  (
    record { enable_device = inl refl; enable_device_mem = inl refl; request_region = inl refl },
    tt,
  ),
)

-- Loading, the two attachments, and unloading.
abbrev echo_life : Life (List ℕ)
echo_life = module_life word_memory (pos 0) echoed words

module_leaks_example :
    (log : List Event) × (last : List ℕ) × (echo_life ≡ ended log last) × Leaves 2 1 log
module_leaks_example = module_leaks word_memory echoed words echoed-IsDocumented (refl, (refl, tt))

-- An attachment in which ioremap answers NULL.
abbrev null_mapped : Attachment
null_mapped = record { uninitialised = 7; calls = record echo_well { dev_mem = none } }

null_mapped_faults : (log : List Event) × (attach word_memory null_mapped words ≡ faulted log words)
unfolding attach
null_mapped_faults = (_, refl)

-- The file opened last is closed while the one before it is still open.
handler_private_data_example :
    handler_private_data (after (opens true 3 0 ∷ opens true 4 0 ∷ closes 4 ∷ []) loaded)
    ≡ some freed
unfolding latest
handler_private_data_example =
    handler_private_data_lem (opens true 3 0 ∷ opens true 4 0 ∷ closes 4 ∷ [])

-- The macros of most machines.
abbrev macros : IoctlMacros
macros = record {
  io = λ magic nr. magic * 2 ^ 8 + nr;
  ior = λ magic nr size. 2 * 2 ^ 30 + size * 2 ^ 16 + magic * 2 ^ 8 + nr;
  iow = λ magic nr size. 2 ^ 30 + size * 2 ^ 16 + magic * 2 ^ 8 + nr;
}

request_of_example :
    (request_of macros 0x4632 ≡ fpga_char_ring_doorbell) ↔ (0x4632 ≡ call_number ring_doorbell)
request_of_example =
    request_of-call_number macros ring_doorbell 0x4632
      (record { io = λ magic nr. refl; ior = λ magic nr size. refl; iow = λ magic nr size. refl })
