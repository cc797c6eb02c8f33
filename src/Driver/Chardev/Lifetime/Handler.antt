-- ===== src/Driver/Chardev/Lifetime/Handler.antt =====
-- What the interrupt handler works with after the device is attached: `fpga->filep`,
-- fpga-char/fpga_char_main.c:224.
use linux_pcie_dma.Common.{◌≡◌, Bool, true, ◌&&◌, not, none, some, List, [], ◌∷◌, arith}
use linux_pcie_dma.Driver.Chardev.Lifetime.{
  Life, LifeEvent, probes, removes, opens, closes, happens, lives, null_pointer, handler_reached,
  lives_cons,
}

-- Whether no event opens a file.
abbrev pub opens_nothing : List LifeEvent → Bool
opens_nothing [] = true
opens_nothing (opens allocated file iminor ∷ events) = not allocated && opens_nothing events
opens_nothing (probes ∷ events) = opens_nothing events
opens_nothing (removes ∷ events) = opens_nothing events
opens_nothing (closes file ∷ events) = opens_nothing events

happens_nothing :
    (event : LifeEvent) (events : List LifeEvent) (s t : Life)
    → s.dev.filep ≡ none
    → happens event s ≡ some t
    → opens_nothing (event ∷ events) ≡ true
    → (t.dev.filep ≡ none) × (opens_nothing events ≡ true)
unfolding happens
happens_nothing probes events s t h e quiet = (ground arith, ground arith)
happens_nothing removes events s t h e quiet = (ground arith, ground arith)
happens_nothing (opens allocated file iminor) events s t h e quiet = (ground arith, ground arith)
happens_nothing (closes file) events s t h e quiet = (ground arith, ground arith)

lives_nothing :
    (events : List LifeEvent) (s t : Life)
    → s.dev.filep ≡ none
    → lives events s ≡ some t
    → opens_nothing events ≡ true
    → t.dev.filep ≡ none
unfolding lives
lives_nothing [] s t h e quiet = ground arith
lives_nothing (event ∷ events) s t h e quiet =
    let (middle, one, rest) = lives_cons event events s t e in
    let (still, quiet') = happens_nothing event events s middle h one quiet in
    lives_nothing events middle t still rest quiet'

probed_filep : (s t : Life) → happens probes s ≡ some t → t.dev.filep ≡ none
unfolding happens
probed_filep s t e = ground arith

-- From the moment that the device is attached, again or for the first time, until a file is opened,
-- the interrupt handler works through NULL, also while files of an earlier attachment are open.
handler_after_probe :
    (events : List LifeEvent) (s t : Life)
    → lives (probes ∷ events) s ≡ some t
    → opens_nothing events ≡ true
    → handler_reached t ≡ null_pointer
handler_after_probe events s t e quiet =
    let (middle, one, rest) = lives_cons probes events s t e in
    let none_yet = lives_nothing events middle t (probed_filep s middle one) rest quiet in
    ground (arith, none_yet)
