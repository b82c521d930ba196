-- ===== src/Infrastructure/Config/Dsn.antt =====
-- app/infrastructure/config.py: the credentials in a connection string.
use secunda_test.Base.{
  ℕ, ◌/◌, ◌%◌, ◌≡◌, ◌≢◌, Bool-cases, true, List, [], ◌∷◌, ◌++◌, ◌==◌, if◌then◌else◌, Text, lit,
  drop, All, All-append, All-map, inl, inr, arith,
}
use secunda_test.Py.Quote.{utf8, is_unreserved, hex_upper, quote_bytes, quote_plus}
use secunda_test.Infrastructure.Config.{
  PostgresSettings, RabbitSettings, authority, postgres_dsn, rabbit_dsn,
}

-- The text before the first `c`.
abbrev pub before : ℕ → Text → Text
before c [] = []
before c (d ∷ s) = if d == c then [] else d ∷ before c s

before-append : (c : ℕ) (s t : Text) → All (λ d. d ≢ c) s → before c (s ++ c ∷ t) ≡ s
before-append c [] t h = ground arith
before-append c (d ∷ s) t h = ground (arith, h.0, before-append c s t h.1)

-- No character that separates the parts of an authority.
abbrev pub IsPlain : ℕ → Type 0
IsPlain c = (c ≢ b':') × (c ≢ b'@')

unreserved-IsPlain : (b : ℕ) → is_unreserved b ≡ true → IsPlain b
unreserved-IsPlain b h = ((λ q. cc (rw q at h)), (λ q. cc (rw q at h)))

hex_upper-IsPlain : (d : ℕ) → IsPlain (hex_upper d)
hex_upper-IsPlain d = ((λ q. ground arith), (λ q. ground arith))

quote_bytes-IsPlain : (bs : List ℕ) → All IsPlain (quote_bytes bs)
unfolding quote_bytes
quote_bytes-IsPlain [] = tt
quote_bytes-IsPlain (b ∷ bs) = elim (Bool-cases (is_unreserved b)) [
  | inl e ↦ rw e (unreserved-IsPlain b e, quote_bytes-IsPlain bs)
  | inr e ↦
      let rest = quote_bytes-IsPlain bs in
      let low = hex_upper-IsPlain (b % 16) in
      let high = hex_upper-IsPlain (b / 16) in
      rw e (((λ q. omega arith), (λ q. omega arith)), (high, (low, rest)))
]

quote_plus-IsPlain : (s : Text) → All IsPlain (quote_plus s)
unfolding quote_plus
quote_plus-IsPlain [] = tt
quote_plus-IsPlain (c ∷ s) = elim (Bool-cases (c == 32)) [
  | inl e ↦ rw e (((λ q. omega arith), (λ q. omega arith)), quote_plus-IsPlain s)
  | inr e ↦ rw e (
      All-append IsPlain (quote_bytes (utf8 c)) (quote_plus s) (quote_bytes-IsPlain (utf8 c))
        (quote_plus-IsPlain s))
]

before_colon : (s t : Text) → All IsPlain s → before b':' (s ++ b':' ∷ t) ≡ s
before_colon s t h = before-append b':' s t (All-map IsPlain (λ d. d ≢ b':') (λ d k. k.0) s h)

-- What is sent as the credentials of an address: the text before its first `@`, and of that the
-- text before its first `:`.
abbrev pub credentials : Text → Text × Text
credentials s = let c = before b'@' s in (c, before b':' c)

credentials-authority :
    (user password rest : Text)
    → All IsPlain user
    → All IsPlain password
    → credentials ((user ++ b':' ∷ password) ++ b'@' ∷ rest) ≡ (user ++ b':' ∷ password, user)
credentials-authority user password rest hu hp =
    let plain : All (λ d. d ≢ b'@') (user ++ b':' ∷ password) =
      All-append (λ d. d ≢ b'@') user (b':' ∷ password)
        (All-map IsPlain (λ d. d ≢ b'@') (λ d k. k.1) user hu)
        ((λ q. omega arith), All-map IsPlain (λ d. d ≢ b'@') (λ d k. k.1) password hp) in
    rw (before-append b'@' (user ++ b':' ∷ password) rest plain, before_colon user password hu)

-- Whatever characters the user, the password, the host and the database or virtual host have, a
-- reader of either connection string that takes what stands before the first `@` after the scheme
-- as the credentials, and of these what stands before the first `:` as the user, gets the quoted
-- user and password.
pub credentials-dsn :
    (p : PostgresSettings) (r : RabbitSettings)
    → (credentials (drop 21 (postgres_dsn p))
        ≡ (quote_plus p.user ++ b':' ∷ quote_plus p.password, quote_plus p.user))
      × (credentials (drop 7 (rabbit_dsn r))
          ≡ (quote_plus r.user ++ b':' ∷ quote_plus r.password, quote_plus r.user))
unfolding postgres_dsn rabbit_dsn authority lit
credentials-dsn p r = (
  credentials-authority (quote_plus p.user) (quote_plus p.password) _ (quote_plus-IsPlain p.user)
      (quote_plus-IsPlain p.password),
  credentials-authority (quote_plus r.user) (quote_plus r.password) _ (quote_plus-IsPlain r.user)
      (quote_plus-IsPlain r.password),
)
