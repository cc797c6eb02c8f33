-- ===== src/Driver/Chardev/Files.antt =====
-- Opening and closing the device file: fpga_char_open and fpga_char_release,
-- fpga-char/chardev.c:123-174, and the private data that a transfer finds (lines 184 and 216).
use linux_pcie_dma.Common.{
  ℕ, ◌+◌, ◌-◌, ◌%◌, ◌^◌, ◌≡◌, ◌≢◌, refl, Bool, true, false, Option, none, some, ◌==◌, if◌then◌else◌,
  arith,
}
use linux_pcie_dma.Driver.{Reply, returns, fails, enomem}

-- What `filep->private_data` points to: nothing, a live struct fpga_char_private_data with its
-- minor number (a u8), or one that was freed. All of them point to the one FPGA of the module.
pub data PrivateData : Type 0 where
  null : PrivateData
  live : (minor_device_number : ℕ) → PrivateData
  freed : PrivateData

-- Files are numbered. `filep` is fpga_dev->filep, none while it is NULL.
pub record CharDev : Type 0 where
  pub filep : Option ℕ
  pub private_data : ℕ → PrivateData
  pub module_count : ℕ

abbrev pub update : (ℕ → PrivateData) → ℕ → PrivateData → ℕ → PrivateData
update f file p other = if file == other then p else f other

unfoldable pub fpga_char_open : (allocated : Bool) (file iminor : ℕ) → CharDev → Reply × CharDev
fpga_char_open allocated file iminor s =
    if allocated
    then (
      returns 0,
      record {
        filep = some file;
        private_data = update s.private_data file (live (iminor % 2 ^ 8));
        module_count = s.module_count + 1;
      },
    )
    else (fails enomem, s)

-- kfree of what the file points to, if anything; the pointer in the file stays.
abbrev pub kfree : PrivateData → PrivateData
kfree null = null
kfree (live _) = freed
kfree freed = freed

unfoldable pub fpga_char_release : ℕ → CharDev → Reply × CharDev
fpga_char_release file s = (
  returns 0,
  record s {
    private_data = update s.private_data file (kfree (s.private_data file));
    module_count = s.module_count - 1;
  },
)

-- What the interrupt handler reads through fpga->filep, none if that is NULL.
abbrev pub handler_private_data : CharDev → Option PrivateData
handler_private_data s = elim s.filep [ none ↦ none | some file ↦ some (s.private_data file) ]

-- A successful open gives the file live private data, through which the interrupt handler works
-- from then on, and counts one use of the module. Closing the same file next restores the count and
-- leaves the handler with the freed struct, although another file keeps its private data.
pub fpga_char_open-fpga_char_release :
    (file iminor other : ℕ) (s : CharDev)
    → file ≢ other
    → let opened = (fpga_char_open true file iminor s).1 in
      let closed = (fpga_char_release file opened).1 in
      (handler_private_data opened ≡ some (live (iminor % 2 ^ 8)))
      × (opened.module_count ≡ s.module_count + 1)
      × (handler_private_data closed ≡ some freed)
      × (closed.module_count ≡ s.module_count)
      × (closed.private_data other ≡ s.private_data other)
unfolding fpga_char_open fpga_char_release
fpga_char_open-fpga_char_release file iminor other s ne =
    (ground arith, refl, ground arith, omega arith, ground arith)

-- An open that gets no memory reports ENOMEM and changes nothing.
pub fpga_char_open_enomem :
    (file iminor : ℕ) (s : CharDev) → fpga_char_open false file iminor s ≡ (fails enomem, s)
unfolding fpga_char_open
fpga_char_open_enomem file iminor s = refl
