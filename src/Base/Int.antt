-- ===== src/Base/Int.antt =====
-- Go's `int`, `int64` and `time.Duration` values as integers, with the wrap-around of `int64`.
use Prim.Native.Nat.{ℕ, zero, suc, ◌+◌, ◌-◌, ◌^◌}
use mathlib.Core.Bool.{Bool, true, false}
use consensus_proxy.Base.Tests.{leb, ◌==◌, if◌then◌else◌}

-- `negsuc n` is -(n + 1).
pub data ℤ : Type 0 where
  pos : ℕ → ℤ
  negsuc : ℕ → ℤ

abbrev pub leb_ℤ : ℤ → ℤ → Bool
leb_ℤ (pos a) (pos b) = leb a b
leb_ℤ (pos a) (negsuc b) = false
leb_ℤ (negsuc a) (pos b) = true
leb_ℤ (negsuc a) (negsuc b) = leb b a

-- `b > a` is `ltb_ℤ a b`.
abbrev pub ltb_ℤ : ℤ → ℤ → Bool
ltb_ℤ a b = elim (leb_ℤ b a) [ true ↦ false | false ↦ true ]

abbrev pub int64_end : ℕ
int64_end = 2 ^ 63

-- `x + 1` on `int64`: the largest value wraps to the smallest.
abbrev pub inc_int64 : ℤ → ℤ
inc_int64 (pos n) = if (n + 1) == int64_end then negsuc (int64_end - 1) else pos (n + 1)
inc_int64 (negsuc zero) = pos 0
inc_int64 (negsuc (suc n)) = negsuc n
