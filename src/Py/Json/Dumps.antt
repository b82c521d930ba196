-- ===== src/Py/Json/Dumps.antt =====
-- `json.dumps(value, sort_keys=True, ensure_ascii=False, separators=(",", ":"))`.
use secunda_test.Base.{
  ℕ, ◌≡◌, refl, Bool, true, false, List, [], ◌∷◌, ◌++◌, map, ◌==◌, ltb, if◌then◌else◌, Text,
  text_eq, lit, ◌/◌, ◌%◌, ◌+◌,
}
use secunda_test.Py.Strings.{join}
use secunda_test.Py.Numbers.{show_int}
use secunda_test.Py.Json.{
  Json, null, bool, int, float, str, arr, obj, Items, nil, cons, Fields, end, field,
}

-- `s <= t` of two texts, by code points
abbrev pub text_leb : Text → Text → Bool
text_leb [] t = true
text_leb (c ∷ s) [] = false
text_leb (c ∷ s) (d ∷ t) =
    let rest = text_leb s t in if ltb c d then true else if c == d then rest else false

-- The entry at its place among those that are sorted by key.
abbrev pub insert : Text → Text → List (Text × Text) → List (Text × Text)
insert k v [] = (k, v) ∷ []
insert k v (e ∷ es) =
    let rest = insert k v es in if text_leb k e.0 then (k, v) ∷ e ∷ es else e ∷ rest

-- A hexadecimal digit
abbrev hex_digit : ℕ → ℕ
hex_digit n = if ltb n 10 then 48 + n else 87 + n

-- A character within quotes: the control characters, the quote and the backslash are escaped.
unfoldable pub escape : ℕ → Text
unfolding lit
escape c =
    if c == 34
    then 92 ∷ 34 ∷ []
    else if c == 92
    then 92 ∷ 92 ∷ []
    else if c == 8
    then 92 ∷ b'b' ∷ []
    else if c == 12
    then 92 ∷ b'f' ∷ []
    else if c == 10
    then 92 ∷ b'n' ∷ []
    else if c == 13
    then 92 ∷ b'r' ∷ []
    else if c == 9
    then 92 ∷ b't' ∷ []
    else if ltb c 32
    then 92 ∷ b'u' ∷ b'0' ∷ b'0' ∷ hex_digit (c / 16) ∷ hex_digit (c % 16) ∷ []
    else c ∷ []

unfoldable pub escaped : Text → Text
escaped [] = []
escaped (c ∷ s) = escape c ++ escaped s

abbrev pub quoted : Text → Text
quoted s = b'"' ∷ (escaped s ++ b'"' ∷ [])

-- The `repr` of a float, where JavaScript's names stand for those that are no numbers
unfoldable pub float_text : Text → Text
float_text r =
    if text_eq r (lit "nan")
    then lit "NaN"
    else if text_eq r (lit "inf")
    then lit "Infinity"
    else if text_eq r (lit "-inf")
    then lit "-Infinity"
    else r

abbrev pub entry_text : Text × Text → Text
entry_text e = quoted e.0 ++ b':' ∷ e.1

unfoldable mutual
  pub dumps : Json → Text
  dumps null = lit "null"
  dumps (bool true) = lit "true"
  dumps (bool false) = lit "false"
  dumps (int n) = show_int n
  dumps (float r) = float_text r
  dumps (str s) = quoted s
  dumps (arr xs) = b'[' ∷ (join (b',' ∷ []) (dumps_items xs) ++ b']' ∷ [])
  dumps (obj fs) = b'{' ∷ (join (b',' ∷ []) (map entry_text (dumps_fields fs)) ++ b'}' ∷ [])

  pub dumps_items : Items → List Text
  dumps_items nil = []
  dumps_items (cons x xs) = dumps x ∷ dumps_items xs

  -- The entries by key, each with the text of its value.
  pub dumps_fields : Fields → List (Text × Text)
  dumps_fields end = []
  dumps_fields (field k v fs) = insert k (dumps v) (dumps_fields fs)

sorted_dump :
    dumps (obj (field (lit "b") (str (lit "x\"")) (field (lit "a") (arr (cons null nil)) end)))
    ≡ lit "{\"a\":[null],\"b\":\"x\\\"\"}"
unfolding dumps escaped escape lit
sorted_dump = refl
