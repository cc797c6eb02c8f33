-- ===== src/Driver/Chardev/Lifetime.antt =====
-- Files that stay open while the device is removed, and perhaps attached again: the struct
-- fpga_device that a file's private data points to (fpga-char/chardev.c:29-38 and 140-145), made by
-- fpga_probe and freed by fpga_remove (fpga-char/fpga_char_main.c:36-203). Only full probes count, a
-- failed one makes no device file. The kernel opens no file of a device without its node.
pub mod OpenFiles
pub mod Handler
use linux_pcie_dma.Common.{
  ℕ, ◌+◌, ◌%◌, ◌^◌, ◌∙◌, ap, Bool-cases, inl, inr, ◌≡◌, ◌≢◌, ◌<◌, refl, Bool, true, false, ◌&&◌,
  ◌||◌, not, Option, none, some, List, [], ◌∷◌, ◌==◌, if◌then◌else◌, arith,
}
use mathlib.Core.Path.{subst}
use linux_pcie_dma.Driver.Chardev.Files.{
  PrivateData, null, live, freed, CharDev, fpga_char_open, fpga_char_release,
}

-- `dev` are the files, with the field `filep` of the struct fpga_device that the last probe made,
-- which is both `fpga_dev` and the driver data. Structs are numbered in the order of the probes;
-- `fpga_hw` is the field of a file's private data.
pub record Life : Type 0 where
  pub dev : CharDev
  pub is_attached : Bool
  pub fpga_dev : ℕ
  pub is_freed : ℕ → Bool
  pub fpga_hw : ℕ → ℕ

pub data LifeEvent : Type 0 where
  probes removes : LifeEvent
  opens : (allocated : Bool) (file iminor : ℕ) → LifeEvent
  closes : (file : ℕ) → LifeEvent

-- kzalloc of a new struct, whose `filep` is NULL, and `fpga_dev = fpga` at the end of
-- create_char_devs.
unfoldable pub probed : Life → Life
probed s = record s {
  dev = record s.dev { filep = none };
  is_attached = true;
  fpga_dev = s.fpga_dev + 1;
}

-- kfree of the driver data; `fpga_dev` is left as it is.
unfoldable pub removed : Life → Life
removed s = record s {
  is_attached = false;
  is_freed = λ k. if k == s.fpga_dev then true else s.is_freed k;
}

unfoldable pub opened : Bool → ℕ → ℕ → Life → Life
unfolding fpga_char_open
opened allocated file iminor s = record s {
  dev = (fpga_char_open allocated file iminor s.dev).1;
  fpga_hw =
      if allocated
      then (λ other. if other == file then s.fpga_dev else s.fpga_hw other)
      else s.fpga_hw;
}

-- none if the kernel does not call the function in that state.
unfoldable pub happens : LifeEvent → Life → Option Life
unfolding probed removed opened fpga_char_release
happens probes s = if s.is_attached then none else some (probed s)
happens removes s = if s.is_attached then some (removed s) else none
happens (opens allocated file iminor) s =
    if s.is_attached then some (opened allocated file iminor s) else none
happens (closes file) s = some (record s { dev = (fpga_char_release file s.dev).1 })

unfoldable pub lives : List LifeEvent → Life → Option Life
unfolding happens
lives [] s = some s
lives (event ∷ events) s = elim (happens event s) [ none ↦ none | some t ↦ lives events t ]

-- What a transfer through a file works with: `priv->fpga_hw->dev_mem`.
pub data Reached : Type 0 where
  null_pointer freed_private : Reached
  freed_device mapped_device : (k : ℕ) → Reached

abbrev pub reached : Life → ℕ → Reached
reached s file = elim (s.dev.private_data file) [
  | null ↦ null_pointer
  | freed ↦ freed_private
  | live minor ↦
      if s.is_freed (s.fpga_hw file)
      then freed_device (s.fpga_hw file)
      else mapped_device (s.fpga_hw file)
]

-- What the interrupt handler works with: `fpga->filep->private_data->fpga_hw->dev_mem`.
abbrev pub handler_reached : Life → Reached
handler_reached s = elim s.dev.filep [ none ↦ null_pointer | some file ↦ reached s file ]

-- As the module is loaded.
abbrev pub loaded : Life
loaded = record {
  dev = record { filep = none; private_data = λ file. null; module_count = 0 };
  is_attached = false;
  fpga_dev = 0;
  is_freed = λ k. false;
  fpga_hw = λ file. 0;
}

pub lives_cons :
    (event : LifeEvent) (events : List LifeEvent) (s t : Life)
    → lives (event ∷ events) s ≡ some t
    → (middle : Life) × (happens event s ≡ some middle) × (lives events middle ≡ some t)
unfolding lives
lives_cons event events s t e = parts (happens event s) refl
  where
    parts :
        (one : Option Life)
        → happens event s ≡ one
        → (middle : Life) × (happens event s ≡ some middle) × (lives events middle ≡ some t)
    parts none p = absurd (ground arith)
    parts (some middle) p = (middle, p, ground arith)
