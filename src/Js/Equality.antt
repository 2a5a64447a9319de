-- ===== src/Js/Equality.antt =====
-- `===` is reflexive on the values that occur.
use text.Mathlib.TextPositions.{eq_refl}
use trading_monitoring_dashb.Base.{true, false, ◌≡◌, refl, arith}
use trading_monitoring_dashb.Js.{
  Js, undefined, null, bool, num, infinite, str, arr, obj, strict_eq, shallow_equal,
}

pub strict_eq_refl : (a : Js) → strict_eq a a ≡ true
unfolding strict_eq
strict_eq_refl undefined = refl
strict_eq_refl null = refl
strict_eq_refl (bool true) = refl
strict_eq_refl (bool false) = refl
strict_eq_refl (num a) = ground arith
strict_eq_refl (infinite true) = refl
strict_eq_refl (infinite false) = refl
strict_eq_refl (str a) = eq_refl a
strict_eq_refl (arr r xs) = ground arith
strict_eq_refl (obj r fs) = ground arith

pub shallow_equal_refl : (a : Js) → shallow_equal a a ≡ true
unfolding shallow_equal
shallow_equal_refl a = rw (strict_eq_refl a)
