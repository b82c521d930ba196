-- ===== src/Py/Quote.antt =====
-- `urllib.parse.quote_plus` with no safe characters, of texts that UTF-8 can encode.
use secunda_test.Base.{
  ℕ, ◌+◌, ◌/◌, ◌%◌, ◌≡◌, refl, Bool, ◌&&◌, ◌||◌, List, [], ◌∷◌, ◌++◌, ltb, leb, ◌==◌, if◌then◌else◌,
  Text,
}

-- The bytes of a code point.
abbrev pub utf8 : ℕ → List ℕ
utf8 c =
    if ltb c 128
    then c ∷ []
    else if ltb c 2048
    then (192 + c / 64) ∷ (128 + c % 64) ∷ []
    else if ltb c 65536
    then (224 + c / 4096) ∷ (128 + c / 64 % 64) ∷ (128 + c % 64) ∷ []
    else (240 + c / 262144) ∷ (128 + c / 4096 % 64) ∷ (128 + c / 64 % 64) ∷ (128 + c % 64) ∷ []

-- A letter, a digit or one of `_.-~`
abbrev pub is_unreserved : ℕ → Bool
is_unreserved b =
    (leb b'a' b && leb b b'z')
    || (leb b'A' b && leb b b'Z')
    || (leb b'0' b && leb b b'9')
    || b == b'_'
    || b == b'.'
    || b == b'-'
    || b == b'~'

abbrev pub hex_upper : ℕ → ℕ
hex_upper d = if ltb d 10 then 48 + d else 55 + d

unfoldable pub quote_bytes : List ℕ → Text
quote_bytes [] = []
quote_bytes (b ∷ bs) =
    let rest = quote_bytes bs in
    if is_unreserved b then b ∷ rest else b'%' ∷ hex_upper (b / 16) ∷ hex_upper (b % 16) ∷ rest

unfoldable pub quote_plus : Text → Text
unfolding quote_bytes
quote_plus [] = []
quote_plus (c ∷ s) =
    let rest = quote_plus s in if c == 32 then b'+' ∷ rest else quote_bytes (utf8 c) ++ rest

quoted_sign : quote_plus (b'p' ∷ b'@' ∷ 32 ∷ []) ≡ b'p' ∷ b'%' ∷ b'4' ∷ b'0' ∷ b'+' ∷ []
unfolding quote_plus
quoted_sign = refl
