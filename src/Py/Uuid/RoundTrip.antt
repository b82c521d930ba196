-- ===== src/Py/Uuid/RoundTrip.antt =====
-- Parsing the text of a UUID gives the UUID back.
use mathlib.Core.Option as Opt
use native.Mathlib.Nat.{pow-suc}
use secunda_test.Base.{
  ℕ, zero, suc, ◌+◌, ◌*◌, ◌/◌, ◌%◌, ◌^◌, ◌<◌, ◌≤◌, ◌≡◌, refl, ◌∙◌, ap, refl, ◌⊎◌, inl, inr, Bool,
  true, false, some, [], ◌∷◌, ◌++◌, map, ◌==◌, arith, Text, length, take, drop, All, All-append,
  All-map, All-take, All-drop, take-append-drop, length-map, ok,
}
use secunda_test.Py.Strings.{is_space, strip, remove, lstrip_none, rstrip_none, remove_none}
use secunda_test.Py.Numbers.{
  pos, pad_onto, digit_value, scan_digits, scan_magnitude, scan_signed, int_of_text,
}
use secunda_test.Py.Uuid.{
  Uuid, hex_char, hex_of, dashed, show_uuid, is_brace, checked_uuid, bare_hex, uuid_of_hex,
  parse_uuid,
}

abbrev IsHexChar : ℕ → Type 0
IsHexChar c = ((48 ≤ c) × (c ≤ 57)) ⊎ ((97 ≤ c) × (c ≤ 102))

hex_char-IsHexChar : (d : ℕ) → d < 16 → IsHexChar (hex_char d)
hex_char-IsHexChar d h = ground arith

digit_value-hex_char : (d : ℕ) → d < 16 → digit_value (hex_char d) ≡ some d
unfolding digit_value
digit_value-hex_char d h = ground arith

scan-hex_char :
    (acc d : ℕ) (seen : Bool) (s : Text)
    → d < 16
    → scan_digits 16 acc seen (hex_char d ∷ s) ≡ scan_digits 16 (acc * 16 + d) true s
unfolding scan_digits
scan-hex_char acc d seen s h = ground (arith, digit_value-hex_char d)

-- The digits before the rest denote the number, from which the scan goes on.
scan-pad_onto :
    (w n : ℕ) (seen : Bool) (rest : Text)
    → n < 16 ^ suc w
    → scan_digits 16 0 seen (map hex_char (pad_onto 16 (suc w) n rest))
      ≡ scan_digits 16 n true (map hex_char rest)
unfolding pad_onto
scan-pad_onto zero n seen rest h =
    scan-hex_char 0 (n % 16) seen (map hex_char rest) (omega arith)
    ∙ ap (λ k. scan_digits 16 k true (map hex_char rest)) (omega arith)
scan-pad_onto (suc w) n seen rest h =
    scan-pad_onto w (n / 16) seen ((n % 16) ∷ rest) (omega (arith, pow-suc 16 (suc w)))
    ∙ scan-hex_char (n / 16) (n % 16) true (map hex_char rest) (omega arith)
    ∙ ap (λ k. scan_digits 16 k true (map hex_char rest)) (omega arith)

scan_magnitude_hex : (h : Text) → All IsHexChar h → scan_magnitude 16 h ≡ scan_digits 16 0 false h
unfolding scan_magnitude
scan_magnitude_hex [] all = refl
scan_magnitude_hex (c ∷ []) all = refl
scan_magnitude_hex (c ∷ d ∷ s) all = ground arith

scan_signed_hex :
    (h : Text) → All IsHexChar h → scan_signed 16 h ≡ Opt.map pos (scan_digits 16 0 false h)
unfolding scan_signed scan_digits
scan_signed_hex [] all = refl
scan_signed_hex (c ∷ s) all = rw (← scan_magnitude_hex (c ∷ s) all) (ground arith)

is_space_hex : (c : ℕ) → IsHexChar c → is_space c ≡ false
unfolding is_space
is_space_hex c h = ground arith

strip_none : (p : ℕ → Bool) (s : Text) → All (λ c. p c ≡ false) s → strip p s ≡ s
strip_none p s h = rw (lstrip_none p s h) (rstrip_none p s h)

int_of_text_hex :
    (h : Text) → All IsHexChar h → int_of_text 16 h ≡ Opt.map pos (scan_digits 16 0 false h)
unfolding int_of_text
int_of_text_hex h all =
    rw (strip_none is_space h (All-map IsHexChar (λ c. is_space c ≡ false) is_space_hex h all))
      (scan_signed_hex h all)

pad_onto-IsHexChar :
    (w n : ℕ) (rest : Text)
    → All IsHexChar (map hex_char rest)
    → All IsHexChar (map hex_char (pad_onto 16 w n rest))
unfolding pad_onto
pad_onto-IsHexChar zero n rest h = h
pad_onto-IsHexChar (suc w) n rest h =
    pad_onto-IsHexChar w (n / 16) ((n % 16) ∷ rest) (hex_char-IsHexChar (n % 16) (omega arith), h)

length-pad_onto :
    (w n : ℕ) (rest : Text) → length (map hex_char (pad_onto 16 w n rest)) ≡ w + length rest
unfolding pad_onto
length-pad_onto zero n rest = length-map rest hex_char ∙ omega arith
length-pad_onto (suc w) n rest = length-pad_onto w (n / 16) ((n % 16) ∷ rest) ∙ omega arith

-- The text of a UUID: hexadecimal digits and dashes.
abbrev IsUuidChar : ℕ → Type 0
IsUuidChar c = (c ≡ 45) ⊎ IsHexChar c

remove_dash-append :
    (s t : Text) → remove (45 ∷ []) (s ++ t) ≡ remove (45 ∷ []) s ++ remove (45 ∷ []) t
remove_dash-append [] t = refl
remove_dash-append (c ∷ s) t = ground (arith, remove_dash-append s t)

remove_dash : (s t : Text) → All IsHexChar s → remove (45 ∷ []) (s ++ t) ≡ s ++ remove (45 ∷ []) t
remove_dash [] t all = refl
remove_dash (c ∷ s) t all = ground (arith, remove_dash s t all.1)

not_dash : (c : ℕ) → IsHexChar c → (45 == c) ≡ false
not_dash c h = ground arith

not_u : (c : ℕ) → IsUuidChar c → (117 == c) ≡ false
not_u c h = ground arith

not_brace : (c : ℕ) → IsUuidChar c → is_brace c ≡ false
not_brace c h = ground arith

dashed-IsUuidChar : (h : Text) → All IsHexChar h → All IsUuidChar (dashed h)
unfolding dashed
dashed-IsUuidChar h all =
    let P : ℕ → Type 0 = IsUuidChar in
    let a0 : All P h = All-map IsHexChar P (λ c x. inr x) h all in
    let a1 : All P (drop 8 h) = All-drop P 8 h a0 in
    let a2 : All P (drop 4 (drop 8 h)) = All-drop P 4 (drop 8 h) a1 in
    let a3 : All P (drop 4 (drop 4 (drop 8 h))) = All-drop P 4 (drop 4 (drop 8 h)) a2 in
    All-append P (take 8 h) _ (All-take P 8 h a0) (
      inl refl,
      All-append P (take 4 (drop 8 h)) _ (All-take P 4 _ a1) (
        inl refl,
        All-append P (take 4 (drop 4 (drop 8 h))) _ (All-take P 4 _ a2) (
          inl refl,
          All-append P (take 4 (drop 4 (drop 4 (drop 8 h)))) _ (All-take P 4 _ a3)
              (inl refl, All-drop P 4 _ a3),
        ),
      ),
    )

-- A group and its dash, in front of a rest that is read back.
remove_dash_group :
    (n : ℕ) (h t : Text)
    → All IsHexChar h
    → remove (45 ∷ []) t ≡ drop n h
    → remove (45 ∷ []) (take n h ++ 45 ∷ t) ≡ h
remove_dash_group n h t all e =
    remove_dash (take n h) (45 ∷ t) (All-take IsHexChar n h all)
    ∙ ap (λ r. take n h ++ r) e
    ∙ take-append-drop n h

remove_dash-dashed : (h : Text) → All IsHexChar h → remove (45 ∷ []) (dashed h) ≡ h
unfolding dashed
remove_dash-dashed h all =
    let P : ℕ → Type 0 = IsHexChar in
    let a1 : All P (drop 8 h) = All-drop P 8 h all in
    let a2 : All P (drop 4 (drop 8 h)) = All-drop P 4 (drop 8 h) a1 in
    let a3 : All P (drop 4 (drop 4 (drop 8 h))) = All-drop P 4 (drop 4 (drop 8 h)) a2 in
    let last : Text = drop 4 (drop 4 (drop 4 (drop 8 h))) in
    let a4 : All P last = All-drop P 4 (drop 4 (drop 4 (drop 8 h))) a3 in
    remove_dash_group 8 h _ all (
      remove_dash_group 4 (drop 8 h) _ a1 (
        remove_dash_group 4 (drop 4 (drop 8 h)) _ a2 (
          remove_dash_group 4 (drop 4 (drop 4 (drop 8 h))) last a3
            (remove_none 45 [] last (All-map P (λ c. (45 == c) ≡ false) not_dash last a4)))))

-- What surrounds the digits is removed, and nothing else.
bare_hex-dashed : (h : Text) → All IsHexChar h → bare_hex (dashed h) ≡ h
unfolding bare_hex
bare_hex-dashed h all =
    let P : ℕ → Type 0 = IsUuidChar in
    let plain : All P (dashed h) = dashed-IsUuidChar h all in
    let no_u : All (λ c. (117 == c) ≡ false) (dashed h) = All-map P _ not_u (dashed h) plain in
    let no_brace : All (λ c. is_brace c ≡ false) (dashed h) =
      All-map P _ not_brace (dashed h) plain in
    rw
      (
        remove_none 117 (114 ∷ 110 ∷ 58 ∷ []) (dashed h) no_u,
        remove_none 117 (117 ∷ 105 ∷ 100 ∷ 58 ∷ []) (dashed h) no_u,
        strip_none is_brace (dashed h) no_brace,
      )
      (remove_dash-dashed h all)

uuid_of_hex-hex_of : (u : Uuid) → u < 2 ^ 128 → uuid_of_hex (hex_of u) ≡ ok u
unfolding uuid_of_hex hex_of checked_uuid
uuid_of_hex-hex_of u h =
    rw
      (
        length-pad_onto 32 u [],
        int_of_text_hex (map hex_char (pad_onto 16 32 u [])) (pad_onto-IsHexChar 32 u [] tt),
        scan-pad_onto 31 u false [] h,
      )
      (unfold scan_digits in ground arith)

-- Parsing the text of a UUID gives the UUID back.
pub parse_uuid-show_uuid : (u : Uuid) → u < 2 ^ 128 → parse_uuid (show_uuid u) ≡ ok u
unfolding parse_uuid show_uuid
parse_uuid-show_uuid u h =
    rw (bare_hex-dashed (hex_of u) (unfold hex_of in pad_onto-IsHexChar 32 u [] tt))
      (uuid_of_hex-hex_of u h)
