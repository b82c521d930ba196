-- ===== src/Migrations/Schemas.antt =====
-- Statements on a schema that is extended: what they leave alone.
use secunda_test.Base.{
  ◌≡◌, refl, Bool, true, false, ◌||◌, List, [], ◌∷◌, ◌++◌, map, ap, Text, text_eq, any, arith,
}
use secunda_test.Infrastructure.Schema.{Index, Table}
use secunda_test.Migrations.Server.{
  relations, index_names, is_taken, on_table, other_indexes, without_index, without_table,
}

any-append :
    {A : Type 0} (p : A → Bool) (xs ys : List A) → any p (xs ++ ys) ≡ (any p xs || any p ys)
any-append p [] ys = refl
any-append p (x ∷ xs) ys = ground (arith, any-append p xs ys)

pub any_right :
    {A : Type 0} (p : A → Bool) (xs ys : List A) → any p ys ≡ true → any p (xs ++ ys) ≡ true
any_right p [] ys h = h
any_right p (x ∷ xs) ys h = ground (arith, any_right p xs ys h)

pub any_neither :
    {A : Type 0} (p : A → Bool) (xs ys : List A)
    → any p xs ≡ false
    → any p ys ≡ false
    → any p (xs ++ ys) ≡ false
any_neither p [] ys hx hy = hy
any_neither p (x ∷ xs) ys hx hy = ground (arith, any_neither p xs ys)

other_indexes_none :
    (name : Text) (is : List Index)
    → any (text_eq name) (index_names is) ≡ false
    → other_indexes name is ≡ is
other_indexes_none name [] h = refl
other_indexes_none name (i ∷ is) h = ground (arith, other_indexes_none name is)

any_right_false :
    {A : Type 0} (p : A → Bool) (xs ys : List A) → any p (xs ++ ys) ≡ false → any p ys ≡ false
any_right_false p [] ys h = h
any_right_false p (x ∷ xs) ys h = any_right_false p xs ys (ground arith)

or_false : (a b : Bool) → (a || b) ≡ false → (a ≡ false) × (b ≡ false)
or_false true b h = ground arith
or_false false b h = (refl, h)

cons_both :
    {A : Type 0} {x y : A} {xs ys : List A} → x ≡ y → xs ≡ ys → ◌≡◌ {A = List A} (x ∷ xs) (y ∷ ys)
cons_both e es = cc

-- A name that no relation of the schema has.
module _ (name : Text) where
  not_named : (t : Table) → any (text_eq name) (relations t) ≡ false → text_eq name t.name ≡ false
  not_named t h = (or_false (text_eq name t.name) _ h).0

  same_indexes : (t : Table) → any (text_eq name) (relations t) ≡ false → without_index name t ≡ t
  same_indexes t h =
      let free = (or_false (text_eq name t.name) _ h).1 in
      ap (λ is. record t { indexes = is })
        (other_indexes_none name t.indexes (any_right_false (text_eq name) _ _ free))

  pub map-on_table :
      (f : Table → Table) (schema ts : List Table)
      → is_taken name schema ≡ false
      → map (on_table name f) (schema ++ ts) ≡ schema ++ map (on_table name f) ts
  map-on_table f [] ts h = refl
  map-on_table f (t ∷ schema) ts h =
      let (free, rest) = or_false (any (text_eq name) (relations t)) _ h in
      cons_both (ground (arith, not_named t free)) (map-on_table f schema ts rest)

  pub map-without_index :
      (schema ts : List Table)
      → is_taken name schema ≡ false
      → map (without_index name) (schema ++ ts) ≡ schema ++ map (without_index name) ts
  map-without_index [] ts h = refl
  map-without_index (t ∷ schema) ts h =
      let (free, rest) = or_false (any (text_eq name) (relations t)) _ h in
      cons_both (same_indexes t free) (map-without_index schema ts rest)

  pub without_table-append :
      (schema ts : List Table)
      → is_taken name schema ≡ false
      → without_table name (schema ++ ts) ≡ schema ++ without_table name ts
  without_table-append [] ts h = refl
  without_table-append (t ∷ schema) ts h =
      let (free, rest) = or_false (any (text_eq name) (relations t)) _ h in
      ground (arith, not_named t free, without_table-append schema ts rest)

-- Names that neither part of a schema has.
pub names_free :
    (schema ts : List Table) (names : List Text)
    → any (λ name. is_taken name schema) names ≡ false
    → any (λ name. is_taken name ts) names ≡ false
    → any (λ name. is_taken name (schema ++ ts)) names ≡ false
names_free schema ts [] h k = refl
names_free schema ts (n ∷ names) h k =
    let (free, rest) = or_false (is_taken n schema) _ h in
    let (other, others) = or_false (is_taken n ts) _ k in
    ground (arith, any_neither _ schema ts free other, names_free schema ts names rest others)
