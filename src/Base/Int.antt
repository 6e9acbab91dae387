-- ===== src/Base/Int.antt =====
-- Integers over the native numbers: `negsuc n` is -(n + 1).
use Prim.Native.Nat.{ℕ, suc}
use mathlib.Core.Bool.{Bool, true, false}
use coopsync_tbb.Base.Tests.{◌==◌}

pub data ℤ : Type 0 where
  pos : ℕ → ℤ
  negsuc : ℕ → ℤ

abbrev pub int_eq : ℤ → ℤ → Bool
int_eq (pos a) (pos b) = a == b
int_eq (negsuc a) (negsuc b) = a == b
int_eq (pos a) (negsuc b) = false
int_eq (negsuc a) (pos b) = false

abbrev pub is_neg : ℤ → Bool
is_neg (pos a) = false
is_neg (negsuc a) = true

abbrev pub add_one : ℤ → ℤ
add_one (pos a) = pos (suc a)
add_one (negsuc ℕ.zero) = pos 0
add_one (negsuc (suc a)) = negsuc a

abbrev pub sub_one : ℤ → ℤ
sub_one (pos ℕ.zero) = negsuc 0
sub_one (pos (suc a)) = pos a
sub_one (negsuc a) = negsuc (suc a)

-- `1 < z` and `1 ≤ z`
abbrev pub above_one : ℤ → Bool
above_one (pos (suc (suc a))) = true
above_one _ = false

abbrev pub is_pos : ℤ → Bool
is_pos (pos (suc a)) = true
is_pos _ = false
