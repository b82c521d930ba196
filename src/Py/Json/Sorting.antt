-- ===== src/Py/Json/Sorting.antt =====
-- The canonical text of an object does not depend on the order of its keys.
use secunda_test.Base.{
  ◌≡◌, ◌≢◌, refl, ap, ◌∙◌, true, false, List, [], ◌∷◌, ◌++◌, map, Text, Bool-cases, inl, inr, ◌⊎◌,
  arith,
}
use secunda_test.Py.Strings.{join}
use secunda_test.Py.Json.{Json, obj, Fields, field}
use secunda_test.Py.Json.Dumps.{text_leb, insert, dumps, dumps_fields, entry_text}

text_leb-antisym : (s t : Text) → text_leb s t ≡ true → text_leb t s ≡ true → s ≡ t
text_leb-antisym [] [] h k = refl
text_leb-antisym [] (d ∷ t) h k = ground arith
text_leb-antisym (c ∷ s) [] h k = ground arith
text_leb-antisym (c ∷ s) (d ∷ t) h k = ground (arith, text_leb-antisym s t)

text_leb-total : (s t : Text) → text_leb s t ≡ false → text_leb t s ≡ true
text_leb-total [] t h = ground arith
text_leb-total (c ∷ s) [] h = refl
text_leb-total (c ∷ s) (d ∷ t) h = ground (arith, text_leb-total s t)

text_leb_trans : (s t u : Text) → text_leb s t ≡ true → text_leb t u ≡ true → text_leb s u ≡ true
text_leb_trans [] t u h k = refl
text_leb_trans (c ∷ s) [] u h k = ground arith
text_leb_trans (c ∷ s) (d ∷ t) [] h k = ground arith
text_leb_trans (c ∷ s) (d ∷ t) (e ∷ u) h k = ground (arith, text_leb_trans s t u)

one_way :
    (s t : Text)
    → s ≢ t
    → ((text_leb s t ≡ true) × (text_leb t s ≡ false))
      ⊎ ((text_leb s t ≡ false) × (text_leb t s ≡ true))
one_way s t h = elim (Bool-cases (text_leb s t)) [
  | inr a ↦ inr (a, text_leb-total s t a)
  | inl a ↦ elim (Bool-cases (text_leb t s)) [
    | inl b ↦ absurd (h (text_leb-antisym s t a b))
    | inr b ↦ inl (a, b)
  ]
]

-- What is not below `u` is not below a text that is.
not_below : (s t u : Text) → text_leb t u ≡ true → text_leb s u ≡ false → text_leb s t ≡ false
not_below s t u h k = elim (Bool-cases (text_leb s t)) [
  | inr a ↦ a
  | inl a ↦ let b = text_leb_trans s t u a h in cc (k, b)
]

-- Two entries with different keys may be inserted in either order.
insert_comm :
    (k j v u : Text) (es : List (Text × Text))
    → k ≢ j
    → insert k v (insert j u es) ≡ insert j u (insert k v es)
insert_comm k j v u [] h = elim (one_way k j h) [ inl (a, b) ↦ rw (a, b) | inr (a, b) ↦ rw (a, b) ]
insert_comm k j v u (e ∷ es) h = elim (Bool-cases (text_leb k e.0)) [
  | inl kc ↦ elim (Bool-cases (text_leb j e.0)) [
    | inl jc ↦ elim (one_way k j h) [
      | inl (a, b) ↦ ground (arith, kc, jc, a, b)
      | inr (a, b) ↦ ground (arith, kc, jc, a, b)
    ]
    | inr jc ↦ let b : text_leb j k ≡ false = not_below j k e.0 kc jc in ground (arith, kc, jc, b)
  ]
  | inr kc ↦ elim (Bool-cases (text_leb j e.0)) [
    | inl jc ↦ let a : text_leb k j ≡ false = not_below k j e.0 jc kc in ground (arith, kc, jc, a)
    | inr jc ↦ ground (arith, kc, jc, insert_comm k j v u es h)
  ]
]

-- The same entries, each key of a dict or of a dict within it at another place.
pub data Reordered : Fields → Fields → Type 0 where
  same : (fs : Fields) → Reordered fs fs
  swap :
      (k j : Text) (v u : Json) (fs : Fields)
      → k ≢ j
      → Reordered (field k v (field j u fs)) (field j u (field k v fs))
  keep :
      (k : Text) (v : Json) (fs gs : Fields)
      → Reordered fs gs
      → Reordered (field k v fs) (field k v gs)
  inside :
      (k : Text) (fs gs rest : Fields)
      → Reordered fs gs
      → Reordered (field k (obj fs) rest) (field k (obj gs) rest)
  chain : (fs gs hs : Fields) → Reordered fs gs → Reordered gs hs → Reordered fs hs

pub dumps_fields-Reordered : {fs gs : Fields} → Reordered fs gs → dumps_fields fs ≡ dumps_fields gs
unfolding dumps
dumps_fields-Reordered (same fs) = refl
dumps_fields-Reordered (swap k j v u fs h) = insert_comm k j (dumps v) (dumps u) (dumps_fields fs) h
dumps_fields-Reordered (keep k v fs gs r) = ap (insert k (dumps v)) (dumps_fields-Reordered r)
dumps_fields-Reordered (inside k fs gs rest r) =
    ap
      (λ es.
        insert k (b'{' ∷ (join (b',' ∷ []) (map entry_text es) ++ b'}' ∷ [])) (dumps_fields rest))
      (dumps_fields-Reordered r)
dumps_fields-Reordered (chain fs gs hs r q) = dumps_fields-Reordered r ∙ dumps_fields-Reordered q

pub dumps-Reordered : {fs gs : Fields} → Reordered fs gs → dumps (obj fs) ≡ dumps (obj gs)
unfolding dumps
dumps-Reordered r =
    ap (λ es. b'{' ∷ (join (b',' ∷ []) (map entry_text es) ++ b'}' ∷ [])) (dumps_fields-Reordered r)
