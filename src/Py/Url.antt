-- ===== src/Py/Url.antt =====
-- `urllib.parse.urlparse`, as far as the scheme and the network location. What it checks of the
-- inside of a bracketed host and of non-ASCII hosts is left out.
use secunda_test.Base.{
  ℕ, ◌+◌, ◌≡◌, refl, Bool, true, false, not, ◌&&◌, ◌||◌, Option, none, some, [], ◌∷◌, leb, ◌==◌,
  if◌then◌else◌, Text, lit, Result, ok, err, other_error,
}
use mathlib.Core.Option as Opt
use secunda_test.Py.Strings.{lstrip}

pub record ParseResult : Type 0 where
  pub scheme : Text
  pub netloc : Text

abbrev is_alpha : ℕ → Bool
is_alpha c = (leb b'a' c && leb c b'z') || (leb b'A' c && leb c b'Z')

-- `scheme_chars`
abbrev is_scheme_char : ℕ → Bool
is_scheme_char c = is_alpha c || (leb b'0' c && leb c b'9') || c == b'+' || c == b'-' || c == b'.'

abbrev lower : ℕ → ℕ
lower c = if leb b'A' c && leb c b'Z' then c + 32 else c

-- Tabs and line ends are taken out.
without_unsafe : Text → Text
without_unsafe [] = []
without_unsafe (c ∷ s) =
    if c == 9 || c == 10 || c == 13 then without_unsafe s else c ∷ without_unsafe s

-- The text before the first `:` in lower case, if it is all scheme characters, and what follows it.
split_colon : Text → Option (Text × Text)
split_colon [] = none
split_colon (c ∷ s) =
    if c == b':'
    then some ([], s)
    else if is_scheme_char c
    then Opt.map (λ p. (lower c ∷ p.0, p.1)) (split_colon s)
    else none

split_scheme : Text → Text × Text
unfolding split_colon
split_scheme [] = ([], [])
split_scheme (c ∷ s) =
    if is_alpha c
    then elim (split_colon (c ∷ s)) [ none ↦ ([], c ∷ s) | some p ↦ p ]
    else ([], c ∷ s)

-- Up to the first `/`, `?` or `#`
until_delimiter : Text → Text
until_delimiter [] = []
until_delimiter (c ∷ s) = if c == b'/' || c == b'?' || c == b'#' then [] else c ∷ until_delimiter s

split_netloc : Text → Text
unfolding until_delimiter
split_netloc (c ∷ d ∷ s) = if c == b'/' && d == b'/' then until_delimiter s else []
split_netloc _ = []

contains : ℕ → Text → Bool
contains a [] = false
contains a (c ∷ s) = a == c || contains a s

same : Bool → Bool → Bool
same true b = b
same false b = not b

checked : Text → Text → Result ParseResult
unfolding contains same
checked scheme netloc =
    if same (contains b'[' netloc) (contains b']' netloc)
    then ok (record { scheme = scheme; netloc = netloc })
    else err (other_error (lit "ValueError") (lit "Invalid IPv6 URL"))

-- `urlparse(url)`
unfoldable pub urlparse : Text → Result ParseResult
unfolding without_unsafe split_scheme split_netloc checked
urlparse url =
    let (scheme, rest) = split_scheme (without_unsafe (lstrip (λ c. leb c 32) url)) in
    checked scheme (split_netloc rest)

parse_https :
    urlparse (lit "HTTPS://example.com/hook")
    ≡ ok (record { scheme = lit "https"; netloc = lit "example.com" })
unfolding urlparse lit
parse_https = refl

parse_no_scheme :
    urlparse (lit "example.com/hook") ≡ ok (record { scheme = lit ""; netloc = lit "" })
unfolding urlparse lit
parse_no_scheme = refl

parse_bracket :
    urlparse (lit "http://[::1/hook")
    ≡ err (other_error (lit "ValueError") (lit "Invalid IPv6 URL"))
unfolding urlparse lit
parse_bracket = refl
