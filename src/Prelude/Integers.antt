-- ===== src/Prelude/Integers.antt =====
-- Python's integers where a count may pass below zero. `negsuc n` is -(n + 1).
use Prim.Native.Nat.{ℕ, zero, suc, ◌*◌, ◌-◌}
use mathlib.Core.Path.{◌≡◌}
use native.Mathlib.Omega.{arith}
use mathlib.Core.Bool.{Bool, true, false, not}
use codename_madagascar.Prelude.Tests.{nat_beq, leb, ltb}

pub data ℤ : Type 0 where
  pos : ℕ → ℤ
  negsuc : ℕ → ℤ

-- `n + 1` and `n - 1`
abbrev pub suc_ℤ : ℤ → ℤ
suc_ℤ (pos n) = pos (suc n)
suc_ℤ (negsuc zero) = pos zero
suc_ℤ (negsuc (suc n)) = negsuc n

abbrev pub pred_ℤ : ℤ → ℤ
pred_ℤ (pos zero) = negsuc zero
pred_ℤ (pos (suc n)) = pos n
pred_ℤ (negsuc n) = negsuc (suc n)

abbrev pub is_zero : ℤ → Bool
is_zero (pos n) = nat_beq n 0
is_zero (negsuc n) = false

-- n / (d + 1) against m / (e + 1), by cross multiplication.
cross : ℤ → ℕ → ℤ
cross (pos n) d = pos (n * suc d)
cross (negsuc n) d = negsuc (suc n * suc d - 1)

leb_ℤ : ℤ → ℤ → Bool
leb_ℤ (pos m) (pos n) = leb m n
leb_ℤ (pos m) (negsuc n) = false
leb_ℤ (negsuc m) (pos n) = true
leb_ℤ (negsuc m) (negsuc n) = leb n m

eqb_ℤ : ℤ → ℤ → Bool
eqb_ℤ (pos m) (pos n) = nat_beq m n
eqb_ℤ (negsuc m) (negsuc n) = nat_beq m n
eqb_ℤ _ _ = false

-- `p == q` and `p < q` on fractions
unfoldable pub fraction_eqb : ℤ × ℕ → ℤ × ℕ → Bool
unfolding cross eqb_ℤ
fraction_eqb (n, d) (m, e) = eqb_ℤ (cross n e) (cross m d)

unfoldable pub fraction_ltb : ℤ × ℕ → ℤ × ℕ → Bool
unfolding cross leb_ℤ
fraction_ltb (n, d) (m, e) = not (leb_ℤ (cross m d) (cross n e))

-- `-n`
abbrev pub neg : ℕ → ℤ
neg zero = pos zero
neg (suc n) = negsuc n

pub fraction_eqb-neg : (m n : ℕ) → fraction_eqb (neg m, 0) (neg n, 0) ≡ nat_beq m n
unfolding fraction_eqb cross eqb_ℤ
fraction_eqb-neg zero zero = ground arith
fraction_eqb-neg zero (suc n) = ground arith
fraction_eqb-neg (suc m) zero = ground arith
fraction_eqb-neg (suc m) (suc n) = ground arith

pub fraction_ltb-neg : (m n : ℕ) → fraction_ltb (neg m, 0) (neg n, 0) ≡ ltb n m
unfolding fraction_ltb cross leb_ℤ
fraction_ltb-neg zero zero = ground arith
fraction_ltb-neg zero (suc n) = ground arith
fraction_ltb-neg (suc m) zero = ground arith
fraction_ltb-neg (suc m) (suc n) = ground arith

pub fraction_eqb-pos : (m n : ℕ) → fraction_eqb (pos m, 0) (pos n, 0) ≡ nat_beq m n
unfolding fraction_eqb cross eqb_ℤ
fraction_eqb-pos m n = ground arith

pub fraction_ltb-pos : (m n : ℕ) → fraction_ltb (pos m, 0) (pos n, 0) ≡ ltb m n
unfolding fraction_ltb cross leb_ℤ
fraction_ltb-pos m n = ground arith
