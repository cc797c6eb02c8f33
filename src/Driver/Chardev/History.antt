-- ===== src/Driver/Chardev/History.antt =====
-- What the interrupt handler works with after any history of opens and closes of the device file,
-- fpga-char/chardev.c:123-174 and 184-185.
use linux_pcie_dma.Common.{
  ℕ, ◌%◌, ◌^◌, ◌≡◌, Bool, true, false, Option, none, some, List, [], ◌∷◌, ◌==◌, if◌then◌else◌,
  arith,
}
use linux_pcie_dma.Driver.Chardev.Files.{
  fpga_char_open_enomem, PrivateData, live, freed, CharDev, fpga_char_open, fpga_char_release,
  handler_private_data,
}

pub data FileEvent : Type 0 where
  opens : (allocated : Bool) (file iminor : ℕ) → FileEvent
  closes : (file : ℕ) → FileEvent

-- As the module is loaded.
abbrev pub loaded : CharDev
loaded = record { filep = none; private_data = λ file. PrivateData.null; module_count = 0 }

unfoldable pub after : List FileEvent → CharDev → CharDev
after [] s = s
after (opens allocated file iminor ∷ history) s =
    after history (fpga_char_open allocated file iminor s).1
after (closes file ∷ history) s = after history (fpga_char_release file s).1

-- The file that was opened last, and whether it was closed since.
pub data Latest : Type 0 where
  nothing_opened : Latest
  still_open : (file minor : ℕ) → Latest
  closed : (file : ℕ) → Latest

unfoldable pub latest : List FileEvent → Latest → Latest
latest [] l = l
latest (opens true file iminor ∷ history) l = latest history (still_open file (iminor % 2 ^ 8))
latest (opens false file iminor ∷ history) l = latest history l
latest (closes file ∷ history) (still_open opened minor) =
    latest history (if file == opened then closed opened else still_open opened minor)
latest (closes file ∷ history) nothing_opened = latest history nothing_opened
latest (closes file ∷ history) (closed opened) = latest history (closed opened)

-- What the handler then finds through fpga->filep: NULL, live data, or a freed struct.
abbrev pub found : Latest → Option PrivateData
found nothing_opened = none
found (still_open file minor) = some (live minor)
found (closed file) = some freed

abbrev opened_file : Latest → Option ℕ
opened_file nothing_opened = none
opened_file (still_open file minor) = some file
opened_file (closed file) = some file

record Agrees (l : Latest) (s : CharDev) : Type 0 where
  filep : s.filep ≡ opened_file l
  data_found : handler_private_data s ≡ found l

opens-Agrees :
    (file iminor : ℕ) (s : CharDev)
    → Agrees (still_open file (iminor % 2 ^ 8)) (fpga_char_open true file iminor s).1
unfolding fpga_char_open
opens-Agrees file iminor s = ground arith

closes_first-Agrees :
    (file : ℕ) (s : CharDev)
    → Agrees nothing_opened s
    → Agrees nothing_opened (fpga_char_release file s).1
unfolding fpga_char_release
closes_first-Agrees file s h = ground arith

closes-Agrees :
    (file opened minor : ℕ) (s : CharDev)
    → Agrees (still_open opened minor) s
    → Agrees
        (if file == opened then closed opened else still_open opened minor)
        (fpga_char_release file s).1
unfolding fpga_char_release
closes-Agrees file opened minor s h = ground arith

closes_again-Agrees :
    (file opened : ℕ) (s : CharDev)
    → Agrees (closed opened) s
    → Agrees (closed opened) (fpga_char_release file s).1
unfolding fpga_char_release
closes_again-Agrees file opened s h = ground arith

after-Agrees :
    (history : List FileEvent) (l : Latest) (s : CharDev)
    → Agrees l s
    → Agrees (latest history l) (after history s)
unfolding after latest
after-Agrees [] l s h = h
after-Agrees (opens true file iminor ∷ history) l s h =
    after-Agrees history (still_open file (iminor % 2 ^ 8)) (fpga_char_open true file iminor s).1
      (opens-Agrees file iminor s)
after-Agrees (opens false file iminor ∷ history) l s h =
    after-Agrees history l (fpga_char_open false file iminor s).1
      (rw (fpga_char_open_enomem file iminor s) h)
after-Agrees (closes file ∷ history) nothing_opened s h =
    after-Agrees history nothing_opened (fpga_char_release file s).1 (closes_first-Agrees file s h)
after-Agrees (closes file ∷ history) (still_open opened minor) s h =
    after-Agrees history (if file == opened then closed opened else still_open opened minor)
      (fpga_char_release file s).1 (closes-Agrees file opened minor s h)
after-Agrees (closes file ∷ history) (closed opened) s h =
    after-Agrees history (closed opened) (fpga_char_release file s).1
      (closes_again-Agrees file opened s h)

-- After any history of opens and closes, with a failing allocation here and there, the interrupt
-- handler finds live private data exactly if the file opened last is still open. If nothing was
-- opened it goes through NULL, and once that file is closed through a freed struct, even while other
-- files are open.
pub handler_private_data_lem :
    (history : List FileEvent)
    → handler_private_data (after history loaded) ≡ found (latest history nothing_opened)
handler_private_data_lem history =
    (after-Agrees history nothing_opened loaded (ground arith)).data_found
