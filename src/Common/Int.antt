-- ===== src/Common/Int.antt =====
-- The `int` that a kernel call returns: zero, a count, or a negative error code.
use Prim.Native.Nat.{ℕ, zero, suc}
use mathlib.Core.Bool.{Bool, true, false}
use linux_pcie_dma.Common.Tests.{ltb}

-- `negsuc n` is -(n + 1).
pub data ℤ : Type 0 where
  pos : ℕ → ℤ
  negsuc : ℕ → ℤ

-- `if(error)`
abbrev pub is_nonzero : ℤ → Bool
is_nonzero (pos zero) = false
is_nonzero (pos (suc n)) = true
is_nonzero (negsuc n) = true

-- `error < bound`, for a bound that is not negative.
abbrev pub is_below : ℤ → ℕ → Bool
is_below (pos n) bound = ltb n bound
is_below (negsuc n) bound = true

-- -ENOMEM and -ENODEV
abbrev pub minus_enomem : ℤ
minus_enomem = negsuc 11

abbrev pub minus_enodev : ℤ
minus_enodev = negsuc 18
