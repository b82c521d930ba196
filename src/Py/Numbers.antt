-- ===== src/Py/Numbers.antt =====
-- Integers, their decimal print, and `int(text, base)`. Digits are the ASCII ones.
use secunda_test.Base.{
  ℕ, zero, suc, ◌+◌, ◌-◌, ◌*◌, ◌/◌, ◌%◌, ◌≡◌, refl, Bool, true, false, ◌&&◌, ◌||◌, Option, none,
  some, [], ◌∷◌, leb, ltb, ◌==◌, if◌then◌else◌, Text,
}
use mathlib.Core.Option as Opt
use secunda_test.Py.Strings.{is_space, strip}

-- `negsuc n` is -(n + 1)
pub data ℤ : Type 0 where
  pos : ℕ → ℤ
  negsuc : ℕ → ℤ

abbrev pub negate : ℕ → ℤ
negate zero = pos 0
negate (suc n) = negsuc n

show_digits : ℕ → ℕ → Text → Text
show_digits zero n acc = acc
show_digits (suc fuel) n acc =
    let rest = show_digits fuel (n / 10) ((48 + n % 10) ∷ acc) in
    if ltb n 10 then (48 + n) ∷ acc else rest

-- `str(n)`
unfoldable pub show_nat : ℕ → Text
unfolding show_digits
show_nat n = show_digits (suc n) n []

unfoldable pub show_int : ℤ → Text
unfolding show_nat
show_int (pos n) = show_nat n
show_int (negsuc n) = b'-' ∷ show_nat (suc n)

-- The digits of `n` in base `b`, `w` of them: `"%0{w}d"`, `"%0{w}x"`, as values.
unfoldable pub pad_onto : ℕ → ℕ → ℕ → Text → Text
pad_onto b zero n acc = acc
pad_onto b (suc w) n acc = pad_onto b w (n / b) ((n % b) ∷ acc)

unfoldable pub digit_value : ℕ → Option ℕ
digit_value c =
    if leb b'0' c && leb c b'9'
    then some (c - 48)
    else if leb b'a' c && leb c b'z'
    then some (c - 87)
    else if leb b'A' c && leb c b'Z'
    then some (c - 55)
    else none

-- The digits after the sign and the prefix; `seen` says that the last character was a digit, so
-- that one `_` may follow.
unfoldable pub scan_digits : ℕ → ℕ → Bool → Text → Option ℕ
scan_digits b acc seen [] = if seen then some acc else none
scan_digits b acc seen (c ∷ s) =
    if c == b'_' then (if seen then scan_digits b acc false s else none) else elim (digit_value c) [
      | none ↦ none
      | some d ↦ if ltb d b then scan_digits b (acc * b + d) true s else none
    ]

unfoldable pub after_prefix : ℕ → Text → Option ℕ
unfolding scan_digits
after_prefix b (c ∷ s) =
    if c == b'_' then scan_digits b 0 false s else scan_digits b 0 false (c ∷ s)
after_prefix b [] = none

-- Base 16 may have the prefix `0x`.
unfoldable pub scan_magnitude : ℕ → Text → Option ℕ
unfolding scan_digits after_prefix digit_value
scan_magnitude b (c ∷ d ∷ s) =
    if b == 16 && c == b'0' && (d == b'x' || d == b'X')
    then after_prefix b s
    else scan_digits b 0 false (c ∷ d ∷ s)
scan_magnitude b s = scan_digits b 0 false s

unfoldable pub scan_signed : ℕ → Text → Option ℤ
unfolding scan_magnitude
scan_signed b [] = none
scan_signed b (c ∷ s) =
    if c == b'-'
    then Opt.map negate (scan_magnitude b s)
    else if c == b'+'
    then Opt.map pos (scan_magnitude b s)
    else Opt.map pos (scan_magnitude b (c ∷ s))

-- `int(text, base)`; `none` is its `ValueError`
unfoldable pub int_of_text : ℕ → Text → Option ℤ
unfolding scan_signed is_space
int_of_text b s = scan_signed b (strip is_space s)

minus_seven : int_of_text 10 (32 ∷ b'-' ∷ b'0' ∷ b'_' ∷ b'7' ∷ []) ≡ some (negsuc 6)
unfolding int_of_text
minus_seven = refl

trailing_underscore : int_of_text 10 (b'1' ∷ b'_' ∷ []) ≡ none
unfolding int_of_text
trailing_underscore = refl

print_130 : show_int (negsuc 129) ≡ b'-' ∷ b'1' ∷ b'3' ∷ b'0' ∷ []
unfolding show_int
print_130 = refl
