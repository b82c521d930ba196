-- ===== src/Examples/Sorted.antt =====
-- The SELECT of the outbox in memory: its rows pass, in order.
use secunda_test.Base.{
  ℕ, zero, suc, All-take, ◌≤◌, List, [], ◌∷◌, take, leb, All, All-map, arith, Bool-cases, inl, inr,
}
use secunda_test.Infrastructure.Platform.Laws.{Ascending}
use secunda_test.Examples.Memory.{insert_by, sort_by}

module _ {A : Type 0} (key : A → ℕ) where
  All-insert_by :
      (P : A → Type 0) (x : A) (xs : List A) → P x → All P xs → All P (insert_by key x xs)
  All-insert_by P x [] p h = (p, tt)
  All-insert_by P x (y ∷ ys) p h = elim (Bool-cases (leb (key x) (key y))) [
    | inl e ↦ rw e (p, h)
    | inr e ↦ rw e (h.0, All-insert_by P x ys p h.1)
  ]

  pub All-sort_by : (P : A → Type 0) (xs : List A) → All P xs → All P (sort_by key xs)
  All-sort_by P [] h = tt
  All-sort_by P (x ∷ xs) h = All-insert_by P x (sort_by key xs) h.0 (All-sort_by P xs h.1)

  Ascending-insert_by :
      (x : A) (xs : List A) → Ascending key xs → Ascending key (insert_by key x xs)
  Ascending-insert_by x [] h = (tt, tt)
  Ascending-insert_by x (y ∷ ys) h = elim (Bool-cases (leb (key x) (key y))) [
    | inl e ↦
        let below : key x ≤ key y = ground (arith, e) in
        rw e ((below, All-map _ _ (λ z k. omega (arith, below, k)) ys h.0), h)
    | inr e ↦
        let above : key y ≤ key x = ground (arith, e) in
        rw e (All-insert_by (λ z. key y ≤ key z) x ys above h.0, Ascending-insert_by x ys h.1)
  ]

  Ascending-sort_by : (xs : List A) → Ascending key (sort_by key xs)
  Ascending-sort_by [] = tt
  Ascending-sort_by (x ∷ xs) = Ascending-insert_by x (sort_by key xs) (Ascending-sort_by xs)

  Ascending-take : (n : ℕ) (xs : List A) → Ascending key xs → Ascending key (take n xs)
  Ascending-take zero xs h = tt
  Ascending-take (suc n) [] h = tt
  Ascending-take (suc n) (x ∷ xs) h =
      (All-take (λ y. key x ≤ key y) n xs h.0, Ascending-take n xs h.1)

  pub taken-Ascending : (n : ℕ) (xs : List A) → Ascending key (take n (sort_by key xs))
  taken-Ascending n xs = Ascending-take n (sort_by key xs) (Ascending-sort_by xs)
