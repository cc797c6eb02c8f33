-- ===== src/Driver/Ids.antt =====
-- Which PCI devices the two drivers ask for, fpga-char/fpga_char_main.c:6-20 and
-- pcie-echo/pcie_fpga_echo.c:9-24, and what the device says it is,
-- qemu-fpga-char/virtine_fpga.c:504-520.
use linux_pcie_dma.Common.{ℕ, ◌≡◌, ◌↔◌, ◌⊎◌, Bool, true, List, [], ◌∷◌, arith}

-- What a device's configuration registers say.
pub record PciId : Type 0 where
  pub vendor : ℕ
  pub device : ℕ

-- An entry of an id table: PCI_DEVICE, which leaves the subsystem open, or `{ 0, }`, the end.
pub data PciDeviceId : Type 0 where
  pci_device : (vendor device : ℕ) → PciDeviceId
  table_end : PciDeviceId

-- fpga_id_tbl of the character device's module, and that of the echo module.
unfoldable pub fpga_id_tbl : List PciDeviceId
fpga_id_tbl = pci_device 0x1172 0xe003 ∷ table_end ∷ []

unfoldable pub echo_id_tbl : List PciDeviceId
echo_id_tbl = pci_device 0x1172 0xe003 ∷ table_end ∷ []

-- The ids that virtine_fpga_class_init gives the emulated device.
unfoldable pub virtine_fpga_class_id : PciId
virtine_fpga_class_id = record { vendor = 0x1172; device = 0xe003 }

-- The entries before the end of a table that ask for a device.
abbrev pub Lists : List PciDeviceId → PciId → Type 0
Lists [] id = ⊥
Lists (table_end ∷ entries) id = ⊥
Lists (pci_device vendor device ∷ entries) id =
    ((id.vendor ≡ vendor) × (id.device ≡ device)) ⊎ Lists entries id

-- The kernel's match of a table and a device, as it is documented.
pub record IsMatch (pci_match_id : List PciDeviceId → PciId → Bool) : Type 0 where
  pub matches :
      (table : List PciDeviceId) (id : PciId) → (pci_match_id table id ≡ true) ↔ Lists table id

-- Each of the two drivers is asked to probe the emulated device, and no device of other ids: so both
-- modules, when loaded together, want the same device.
drivers_match_device :
    (pci_match_id : List PciDeviceId → PciId → Bool) (id : PciId)
    → IsMatch pci_match_id
    → ((pci_match_id fpga_id_tbl id ≡ true) ↔ (id ≡ virtine_fpga_class_id))
      × ((pci_match_id echo_id_tbl id ≡ true) ↔ (id ≡ virtine_fpga_class_id))
unfolding fpga_id_tbl echo_id_tbl virtine_fpga_class_id
drivers_match_device match_id id m =
    let asks = m.matches (pci_device 0x1172 0xe003 ∷ table_end ∷ []) id in
    (ground arith, ground arith)
