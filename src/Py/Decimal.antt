-- ===== src/Py/Decimal.antt =====
-- `decimal.Decimal`: sign, coefficient and exponent, its tests and its text.
use secunda_test.Base.{
  ℕ, zero, suc, ◌+◌, ◌-◌, ◌≡◌, refl, Bool, true, false, ◌&&◌, [], ◌∷◌, ◌++◌, ltb, leb,
  if◌then◌else◌, Text, lit, length, take, drop, replicate,
}
use secunda_test.Py.Numbers.{ℤ, pos, negsuc, show_nat}

-- The Boolean is the sign, set for a negative number. The coefficient has no leading zeros.
pub data Decimal : Type 0 where
  finite : Bool → ℕ → ℤ → Decimal
  infinity : Bool → Decimal
  nan : Bool → Decimal

unfoldable pub is_finite : Decimal → Bool
is_finite (finite s c e) = true
is_finite (infinity s) = false
is_finite (nan s) = false

-- `d < 0` of a finite number: minus zero is not below zero.
unfoldable pub is_negative : Decimal → Bool
is_negative (finite s c e) = s && ltb 0 c
is_negative (infinity s) = s
is_negative (nan s) = false

-- `-d.as_tuple().exponent`, where that is positive
unfoldable pub decimal_places : Decimal → ℕ
decimal_places (finite s c (pos e)) = 0
decimal_places (finite s c (negsuc e)) = suc e
decimal_places (infinity s) = 0
decimal_places (nan s) = 0

sign_text : Bool → Text
sign_text true = b'-' ∷ []
sign_text false = []

-- One digit before the point, the others after it.
mantissa : Text → Text
mantissa [] = []
mantissa (d ∷ []) = d ∷ []
mantissa (d ∷ e ∷ ds) = d ∷ b'.' ∷ e ∷ ds

-- The digits with `q` of them after the point.
fixed_point : Text → ℕ → Text
fixed_point ds q =
    if leb (length ds) q
    then b'0' ∷ b'.' ∷ (replicate (q - length ds) b'0' ++ ds)
    else take (length ds - q) ds ++ b'.' ∷ drop (length ds - q) ds

magnitude_text : Text → ℤ → Text
unfolding mantissa fixed_point
magnitude_text ds (pos zero) = ds
magnitude_text ds (pos (suc e)) = mantissa ds ++ b'E' ∷ b'+' ∷ show_nat (e + length ds)
magnitude_text ds (negsuc k) =
    if ltb (k + 1) (length ds + 6)
    then fixed_point ds (k + 1)
    else mantissa ds ++ b'E' ∷ b'-' ∷ show_nat (k + 2 - length ds)

-- `str(d)`
unfoldable pub show_decimal : Decimal → Text
unfolding sign_text magnitude_text show_nat
show_decimal (finite s c e) = sign_text s ++ magnitude_text (show_nat c) e
show_decimal (infinity s) = sign_text s ++ lit "Infinity"
show_decimal (nan s) = sign_text s ++ lit "NaN"

show_cents : show_decimal (finite false 150000 (negsuc 1)) ≡ lit "1500.00"
unfolding show_decimal lit
show_cents = refl

show_small : show_decimal (finite true 5 (negsuc 1)) ≡ lit "-0.05"
unfolding show_decimal lit
show_small = refl

show_hundred : show_decimal (finite false 1 (pos 2)) ≡ lit "1E+2"
unfolding show_decimal lit
show_hundred = refl

show_tiny : show_decimal (finite false 123 (negsuc 9)) ≡ lit "1.23E-8"
unfolding show_decimal lit
show_tiny = refl
