-- ===== src/Driver/Chardev/Lifetime/OpenFiles.antt =====
-- What a file works with that stays open while the device is removed: `priv->fpga_hw` in the
-- transfers, fpga-char/chardev.c:184-185 and 216-217.
use linux_pcie_dma.Common.{
  ℕ, ◌+◌, ◌%◌, ◌^◌, ◌≡◌, ◌<◌, refl, Bool, true, false, ◌||◌, some, List, [], ◌∷◌, ◌==◌,
  if◌then◌else◌, arith,
}
use mathlib.Core.Path.{subst}
use linux_pcie_dma.Driver.Chardev.Files.{live, fpga_char_open}
use linux_pcie_dma.Driver.Chardev.Lifetime.{
  Life, LifeEvent, probes, removes, opens, closes, opened, happens, lives, freed_device,
  mapped_device, reached, loaded, lives_cons,
}

-- Whether one of the events opens or closes the file anew, or removes the device.
abbrev pub touches : ℕ → List LifeEvent → Bool
touches file [] = false
touches file (probes ∷ events) = touches file events
touches file (removes ∷ events) = touches file events
touches file (opens allocated other iminor ∷ events) = (other == file) || touches file events
touches file (closes other ∷ events) = (other == file) || touches file events

abbrev pub is_removed : List LifeEvent → Bool
is_removed [] = false
is_removed (removes ∷ events) = true
is_removed (probes ∷ events) = is_removed events
is_removed (opens allocated other iminor ∷ events) = is_removed events
is_removed (closes other ∷ events) = is_removed events

-- A struct is freed only after it was made, and not while the device has it.
record IsSound (s : Life) : Type 0 where
  coming : (k : ℕ) → s.fpga_dev < k → s.is_freed k ≡ false
  present : s.is_attached ≡ true → s.is_freed s.fpga_dev ≡ false

happens-IsSound :
    (event : LifeEvent) (s t : Life) → IsSound s → happens event s ≡ some t → IsSound t
unfolding happens
happens-IsSound probes s t h e = record {
  coming = λ k l. ground (arith, h.coming k);
  present = λ a. ground (arith, h.coming (s.fpga_dev + 1));
}
happens-IsSound removes s t h e = record {
  coming = λ k l. ground (arith, h.coming k);
  present = λ a. ground arith;
}
happens-IsSound (opens allocated file iminor) s t h e = record {
  coming = λ k l. ground (arith, h.coming k);
  present = λ a. ground (arith, h.present);
}
happens-IsSound (closes file) s t h e = record {
  coming = λ k l. ground (arith, h.coming k);
  present = λ a. ground (arith, h.present);
}

lives-IsSound :
    (events : List LifeEvent) (s t : Life) → IsSound s → lives events s ≡ some t → IsSound t
unfolding lives
lives-IsSound [] s t h e = subst IsSound (ground arith) h
lives-IsSound (event ∷ events) s t h e =
    let (middle, one, rest) = lives_cons event events s t e in
    lives-IsSound events middle t (happens-IsSound event s middle h one) rest

-- A file whose private data points to struct `k`, which the device has until it is freed.
record Points (file k : ℕ) (gone : Bool) (s : Life) : Type 0 where
  private_data : (minor : ℕ) × (s.dev.private_data file ≡ live minor)
  fpga_hw : s.fpga_hw file ≡ k
  is_freed : s.is_freed k ≡ gone
  present : gone ≡ false → (s.fpga_dev ≡ k) × (s.is_attached ≡ true)

happens-Points :
    (event : LifeEvent) (events : List LifeEvent) (file k : ℕ) (gone : Bool) (s t : Life)
    → Points file k gone s
    → happens event s ≡ some t
    → touches file (event ∷ events) ≡ false
    → Points file k (gone || is_removed (event ∷ [])) t × (touches file events ≡ false)
unfolding happens
happens-Points probes events file k gone s t h e quiet = (
  record {
    private_data = (h.private_data.0, ground (arith, h.private_data.1));
    fpga_hw = ground (arith, h.fpga_hw);
    is_freed = ground (arith, h.is_freed);
    present = λ g. ground (arith, h.present, h.is_freed);
  },
  ground arith,
)
happens-Points removes events file k gone s t h e quiet = (
  record {
    private_data = (h.private_data.0, ground (arith, h.private_data.1));
    fpga_hw = ground (arith, h.fpga_hw);
    is_freed = ground (arith, h.is_freed);
    present = λ g. ground (arith, h.present, h.is_freed);
  },
  ground arith,
)
happens-Points (opens allocated other iminor) events file k gone s t h e quiet = (
  record {
    private_data = (h.private_data.0, ground (arith, h.private_data.1));
    fpga_hw = ground (arith, h.fpga_hw);
    is_freed = ground (arith, h.is_freed);
    present = λ g. ground (arith, h.present, h.is_freed);
  },
  ground arith,
)
happens-Points (closes other) events file k gone s t h e quiet = (
  record {
    private_data = (h.private_data.0, ground (arith, h.private_data.1));
    fpga_hw = ground (arith, h.fpga_hw);
    is_freed = ground (arith, h.is_freed);
    present = λ g. ground (arith, h.present, h.is_freed);
  },
  ground arith,
)

removed_cons :
    (event : LifeEvent) (events : List LifeEvent) (gone : Bool)
    → (gone || is_removed (event ∷ [])) || is_removed events ≡ gone || is_removed (event ∷ events)
removed_cons probes events gone = ground arith
removed_cons removes events gone = ground arith
removed_cons (opens allocated file iminor) events gone = ground arith
removed_cons (closes file) events gone = ground arith

lives-Points :
    (events : List LifeEvent) (file k : ℕ) (gone : Bool) (s t : Life)
    → Points file k gone s
    → lives events s ≡ some t
    → touches file events ≡ false
    → Points file k (gone || is_removed events) t
unfolding lives
lives-Points [] file k gone s t h e quiet =
    subst (λ g. Points file k g t) (ground arith) (subst (Points file k gone) (ground arith) h)
lives-Points (event ∷ events) file k gone s t h e quiet =
    let (middle, one, rest) = lives_cons event events s t e in
    let (points, quiet') = happens-Points event events file k gone s middle h one quiet in
    subst (λ g. Points file k g t) (removed_cons event events gone)
      (lives-Points events file k (gone || is_removed (event ∷ [])) middle t points rest quiet')

opened-Points :
    (file iminor : ℕ) (s : Life)
    → IsSound s
    → s.is_attached ≡ true
    → Points file s.fpga_dev false (opened true file iminor s)
unfolding opened fpga_char_open
opened-Points file iminor s h a = record {
  private_data = (iminor % 2 ^ 8, ground arith);
  fpga_hw = ground arith;
  is_freed = ground (arith, h.present);
  present = λ g. ground arith;
}

-- After any life of the module up to a moment at which the device is attached, a file is opened. As
-- long as it is not closed or opened again, a transfer through it works with the mapped registers
-- exactly until the device is removed, and from then on with the freed struct fpga_device, also when
-- the device is attached again.
pub file_outlives_device :
    (history events : List LifeEvent) (file iminor : ℕ) (s t : Life)
    → lives history loaded ≡ some s
    → s.is_attached ≡ true
    → lives events (opened true file iminor s) ≡ some t
    → touches file events ≡ false
    → reached t file
      ≡ (if is_removed events then freed_device s.fpga_dev else mapped_device s.fpga_dev)
file_outlives_device history events file iminor s t before attached after quiet =
    let sound =
      lives-IsSound history loaded s (record { coming = λ k l. refl; present = λ a. refl })
        before in
    let points =
      lives-Points events file s.fpga_dev false (opened true file iminor s) t
        (opened-Points file iminor s sound attached) after quiet in
    ground (arith, points.private_data.1, points.fpga_hw, points.is_freed)
