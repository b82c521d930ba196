-- ===== src/Py/Uuid.antt =====
-- `uuid.UUID`: its text, and its parser. A value is its 128-bit integer.
pub mod RoundTrip
use secunda_test.Base.{
  ℕ, ◌+◌, ◌^◌, Option, none, some, [], ◌∷◌, ◌++◌, map, ltb, ◌||◌, Bool, ◌==◌, if◌then◌else◌, Text,
  lit, length, take, drop, Result, ok, err, other_error,
}
use secunda_test.Py.Strings.{strip, remove}
use secunda_test.Py.Numbers.{ℤ, pos, negsuc, pad_onto, int_of_text}

abbrev pub Uuid : Type 0
Uuid = ℕ

-- A digit of base 16 as its character.
abbrev pub hex_char : ℕ → ℕ
hex_char d = if ltb d 10 then 48 + d else 87 + d

-- `"%032x" % self.int`
pub hex_of : Uuid → Text
hex_of u = map hex_char (pad_onto 16 32 u [])

-- `hex[:8]-hex[8:12]-hex[12:16]-hex[16:20]-hex[20:]`
pub dashed : Text → Text
dashed h =
    let r1 = drop 8 h in
    let r2 = drop 4 r1 in
    let r3 = drop 4 r2 in
    take 8 h ++ b'-' ∷ (take 4 r1 ++ b'-' ∷ (take 4 r2 ++ b'-' ∷ (take 4 r3 ++ b'-' ∷ drop 4 r3)))

-- `str(u)`
unfoldable pub show_uuid : Uuid → Text
unfolding dashed hex_of
show_uuid u = dashed (hex_of u)

abbrev pub is_brace : ℕ → Bool
is_brace c = c == b'{' || c == b'}'

abbrev pub value_error : Text → Result Uuid
value_error m = err (other_error (lit "ValueError") m)

pub checked_uuid : Option ℤ → Result Uuid
checked_uuid none = value_error (lit "invalid literal for int()")
checked_uuid (some (negsuc n)) = value_error (lit "int is out of range (need a 128-bit value)")
checked_uuid (some (pos n)) =
    if ltb n (2 ^ 128) then ok n else value_error (lit "int is out of range (need a 128-bit value)")

pub bare_hex : Text → Text
bare_hex s = remove (b'-' ∷ []) (
    strip is_brace
      (remove (b'u' ∷ b'u' ∷ b'i' ∷ b'd' ∷ b':' ∷ []) (remove (b'u' ∷ b'r' ∷ b'n' ∷ b':' ∷ []) s)))

pub uuid_of_hex : Text → Result Uuid
unfolding checked_uuid
uuid_of_hex h =
    if length h == 32
    then checked_uuid (int_of_text 16 h)
    else value_error (lit "badly formed hexadecimal UUID string")

-- `UUID(s)`
unfoldable pub parse_uuid : Text → Result Uuid
unfolding uuid_of_hex bare_hex
parse_uuid s = uuid_of_hex (bare_hex s)
