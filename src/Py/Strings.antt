-- ===== src/Py/Strings.antt =====
-- Methods of `str`: `strip`, `startswith`, `replace` by the empty text, slices.
use secunda_test.Base.{
  ℕ, zero, suc, ◌-◌, ◌≡◌, refl, Bool, true, false, ◌&&◌, ◌||◌, List, [], ◌∷◌, ◌++◌, arith, leb,
  ◌==◌, if◌then◌else◌, Text, length, Bool-cases, inl, inr, All,
}

-- `c.isspace()`
unfoldable pub is_space : ℕ → Bool
is_space c =
    (leb 9 c && leb c 13)
    || (leb 28 c && leb c 32)
    || c == 133
    || c == 160
    || c == 5760
    || (leb 8192 c && leb c 8202)
    || c == 8232
    || c == 8233
    || c == 8239
    || c == 8287
    || c == 12288

abbrev pub is_empty {ℓ} : {A : Type ℓ} → List A → Bool
is_empty [] = true
is_empty (x ∷ xs) = false

module _ (p : ℕ → Bool) where
  abbrev pub lstrip : Text → Text
  lstrip [] = []
  lstrip (c ∷ s) = if p c then lstrip s else c ∷ s

  abbrev pub rstrip : Text → Text
  rstrip [] = []
  rstrip (c ∷ s) = let rest = rstrip s in if p c && is_empty rest then [] else c ∷ rest

  -- `s.strip()` of the characters that `p` names
  abbrev pub strip : Text → Text
  strip s = rstrip (lstrip s)

abbrev pub starts_with : Text → Text → Bool
starts_with [] s = true
starts_with (c ∷ p) [] = false
starts_with (c ∷ p) (d ∷ s) = c == d && starts_with p s

-- `s.replace(sub, "")`: `skip` characters of an occurrence are still to be passed over.
abbrev remove_from : Text → ℕ → Text → Text
remove_from sub skip [] = []
remove_from sub (suc skip) (c ∷ s) = remove_from sub skip s
remove_from sub zero (c ∷ s) =
    if starts_with sub (c ∷ s) then remove_from sub (length sub - 1) s else c ∷ remove_from sub 0 s

abbrev pub remove : Text → Text → Text
remove sub s = remove_from sub 0 s

-- `sep.join(parts)`
abbrev pub join : Text → List Text → Text
join sep [] = []
join sep (s ∷ []) = s
join sep (s ∷ t ∷ rest) = s ++ (sep ++ join sep (t ∷ rest))

-- What is stripped to nothing holds only stripped characters.
pub strip-empty : (p : ℕ → Bool) (s : Text) → is_empty (strip p s) ≡ true → All (λ c. p c ≡ true) s
strip-empty p [] h = tt
strip-empty p (c ∷ s) h = elim (Bool-cases (p c)) [
  | inl space ↦ (space, strip-empty p s (ground arith))
  | inr other ↦ ground arith
]

pub empty-strip : (p : ℕ → Bool) (s : Text) → All (λ c. p c ≡ true) s → is_empty (strip p s) ≡ true
empty-strip p [] h = refl
empty-strip p (c ∷ s) h = ground (arith, empty-strip p s h.1)

pub lstrip_none : (p : ℕ → Bool) (s : Text) → All (λ c. p c ≡ false) s → lstrip p s ≡ s
lstrip_none p [] h = refl
lstrip_none p (c ∷ s) h = ground arith

pub rstrip_none : (p : ℕ → Bool) (s : Text) → All (λ c. p c ≡ false) s → rstrip p s ≡ s
rstrip_none p [] h = refl
rstrip_none p (c ∷ s) h = ground (arith, rstrip_none p s h.1)

-- A text without the first character of `sub` holds no occurrence of it.
pub remove_none : (d : ℕ) (sub s : Text) → All (λ c. (d == c) ≡ false) s → remove (d ∷ sub) s ≡ s
remove_none d sub [] h = refl
remove_none d sub (c ∷ s) h = ground (arith, remove_none d sub s h.1)
