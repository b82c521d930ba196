-- ===== src/Examples/Lawful.antt =====
-- The system in memory is lawful.
use secunda_test.Base.{
  All-take, length-take, ℕ, ◌≡◌, ◌≢◌, refl, ap, Bool, Bool-cases, true, false, List, [], ◌∷◌, ◌==◌,
  Text, lit, sym, text_eq, text_eq_sound, text_eq_complete, length, count, Exc, integrity_error,
  Result, ok, err, All, All-map, Member, arith, inl, inr,
}
use mathlib.Core.Path.{subst}
use secunda_test.Infrastructure.Models.{
  PaymentModel, OutboxMessageModel, Tables, passes_checks, FitsColumns, KeyFree, IdFree,
  MessageFree,
}
use secunda_test.Infrastructure.Invariant.{Evolves-refl}
use secunda_test.Infrastructure.Platform.Laws.{IsLawful, IsDriverError, Insertable}
use secunda_test.Infrastructure.Session.{idempotency_key_constraint, occurs}
use secunda_test.Examples.Sorted.{All-sort_by, taken-Ascending}
use secunda_test.Examples.Memory.{
  sort_by, memory, filter, none_of, acceptable, key_is_free, insert, plus_row,
}

occurs_refl : occurs idempotency_key_constraint idempotency_key_constraint ≡ true
unfolding occurs idempotency_key_constraint lit
occurs_refl = refl

ok-injective : {A : Type 0} {a b : A} → ok a ≡ ok b → a ≡ b
ok-injective {a = a} e = ap (λ r. elim r [ ok x ↦ x | err x ↦ a ]) e

err-injective : {A : Type 0} {d e : Exc} → ◌≡◌ {A = Result A} (err d) (err e) → d ≡ e
err-injective {A} {d = d} h = ap (λ (r : Result A). elim r [ ok x ↦ d | err x ↦ x ]) h

module _ {A : Type 0} (clash : A → Bool) (P : A → Type 0) (sound : (a : A) → clash a ≡ false → P a)
    (complete : (a : A) → P a → clash a ≡ false) where
  none_of_sound : (xs : List A) → none_of clash xs ≡ true → All P xs
  none_of_sound [] h = tt
  none_of_sound (x ∷ xs) h = elim (Bool-cases (clash x)) [
    | inl e ↦ ground (arith, e)
    | inr e ↦ (sound x e, none_of_sound xs (ground (arith, e)))
  ]

  none_of_complete : (xs : List A) → All P xs → none_of clash xs ≡ true
  none_of_complete [] h = refl
  none_of_complete (x ∷ xs) h = rw (complete x h.0) (none_of_complete xs h.1)

filter_sound :
    {A : Type 0} (p : A → Bool) (rs : List A) → All (λ r. Member r rs × (p r ≡ true)) (filter p rs)
filter_sound p [] = tt
filter_sound p (r ∷ rs) =
    let rest =
      All-map (λ s. Member s rs × (p s ≡ true)) (λ s. Member s (r ∷ rs) × (p s ≡ true))
        (λ s h. (inr h.0, h.1)) (filter p rs) (filter_sound p rs) in
    elim (Bool-cases (p r)) [ inl e ↦ rw e ((inl refl, e), rest) | inr e ↦ rw e rest ]

filter-length :
    (p : PaymentModel → Bool) (rs : List PaymentModel) → length (filter p rs) ≡ count p rs
filter-length p [] = refl
filter-length p (r ∷ rs) = ground (arith, filter-length p rs)

id_clash_sound : (a b : ℕ) → (a == b) ≡ false → a ≢ b
id_clash_sound a b h e = ground arith

id_clash_complete : (a b : ℕ) → a ≢ b → (a == b) ≡ false
id_clash_complete a b h = ground arith

key_clash_sound : (s t : Text) → text_eq s t ≡ false → s ≢ t
key_clash_sound s t h e = cc (text_eq_complete s t e, h)

key_clash_complete : (s t : Text) → s ≢ t → text_eq s t ≡ false
key_clash_complete s t h = elim (Bool-cases (text_eq s t)) [
  | inl e ↦ absurd (h (text_eq_sound s t e))
  | inr e ↦ e
]

module _ (r : PaymentModel) (m : OutboxMessageModel) (t : Tables) where
  acceptable_complete :
      FitsColumns r
      → passes_checks r ≡ true
      → IdFree r.id t.payments
      → MessageFree m.id t.outbox
      → acceptable r m t ≡ true
  acceptable_complete fits checks ids messages =
      let id_ok =
        none_of_complete (λ (s : PaymentModel). s.id == r.id) (λ s. s.id ≢ r.id)
          (λ s. id_clash_sound s.id r.id) (λ s. id_clash_complete s.id r.id) t.payments ids in
      let message_ok =
        none_of_complete (λ (n : OutboxMessageModel). n.id == m.id) (λ n. n.id ≢ m.id)
          (λ n. id_clash_sound n.id m.id) (λ n. id_clash_complete n.id m.id) t.outbox messages in
      ground (arith, fits.key, fits.hash, checks, id_ok, message_ok)

  acceptable_sound :
      acceptable r m t ≡ true
      → FitsColumns r
        × (passes_checks r ≡ true)
        × IdFree r.id t.payments
        × MessageFree m.id t.outbox
  acceptable_sound h = (
    record { key = ground arith; hash = ground arith },
    ground arith,
    none_of_sound (λ (s : PaymentModel). s.id == r.id) (λ s. s.id ≢ r.id)
        (λ s. id_clash_sound s.id r.id) (λ s. id_clash_complete s.id r.id) t.payments
        (ground arith),
    none_of_sound (λ (n : OutboxMessageModel). n.id == m.id) (λ n. n.id ≢ m.id)
        (λ n. id_clash_sound n.id m.id) (λ n. id_clash_complete n.id m.id) t.outbox (ground arith),
  )

  key_sound : key_is_free r t ≡ true → KeyFree r.idempotency_key t.payments
  key_sound h =
      none_of_sound _ (λ s. s.idempotency_key ≢ r.idempotency_key)
        (λ s. key_clash_sound s.idempotency_key r.idempotency_key)
        (λ s. key_clash_complete s.idempotency_key r.idempotency_key) t.payments h

  key_complete : KeyFree r.idempotency_key t.payments → key_is_free r t ≡ true
  key_complete h =
      none_of_complete _ (λ s. s.idempotency_key ≢ r.idempotency_key)
        (λ s. key_clash_sound s.idempotency_key r.idempotency_key)
        (λ s. key_clash_complete s.idempotency_key r.idempotency_key) t.payments h

  insert-ok : Insertable memory r m t → insert r m t ≡ ok (plus_row r m t)
  insert-ok h =
      rw (acceptable_complete h.columns h.checks h.id_free h.message_free, key_complete h.key_free)

  insert-inserts :
      {t' : Tables} → insert r m t ≡ ok t' → Insertable memory r m t × (t' ≡ plus_row r m t)
  insert-inserts {t'} h = elim (Bool-cases (acceptable r m t)) [
    | inr e ↦ cc (rw e at h)
    | inl e ↦ elim (Bool-cases (key_is_free r t)) [
      | inr f ↦ cc (rw (e, f) at h)
      | inl f ↦
          let fits = acceptable_sound e in
          (
            record {
              storable = unfold memory in refl;
              columns = fits.0;
              checks = fits.1;
              id_free = fits.2;
              key_free = key_sound f;
              message_free = fits.3;
            },
            sym (ok-injective (rw (e, f) at h)),
          )
    ]
  ]

  insert-fails : (e : Exc) → insert r m t ≡ err e → IsDriverError e
  insert-fails e h = elim (Bool-cases (acceptable r m t)) [
    | inr a ↦ subst IsDriverError (err-injective (rw a at h)) tt
    | inl a ↦ elim (Bool-cases (key_is_free r t)) [
      | inr f ↦ subst IsDriverError (err-injective (rw (a, f) at h)) tt
      | inl f ↦ cc (rw (a, f) at h)
    ]
  ]

  insert-duplicate :
      IdFree r.id t.payments
      → MessageFree m.id t.outbox
      → FitsColumns r
      → passes_checks r ≡ true
      → ¬ KeyFree r.idempotency_key t.payments
      → insert r m t ≡ err (integrity_error idempotency_key_constraint)
  insert-duplicate ids messages columns checks taken = elim (Bool-cases (key_is_free r t)) [
    | inl f ↦ absurd (taken (key_sound f))
    | inr f ↦ rw (acceptable_complete columns checks ids messages, f)
  ]

pub memory-IsLawful : IsLawful memory
unfolding memory
memory-IsLawful = record {
  select_sound = λ p t. filter_sound p t.payments;
  select_length = λ p t. filter-length p t.payments;
  update_ok = λ p f t ids checks. refl;
  select_outbox_sound = λ q t.
      All-take (λ m. Member m t.outbox × (q.condition m ≡ true)) q.limit
        (sort_by q.order_by (filter q.condition t.outbox))
        (All-sort_by q.order_by (λ m. Member m t.outbox × (q.condition m ≡ true))
          (filter q.condition t.outbox) (filter_sound q.condition t.outbox));
  select_outbox_ordered = λ q t. taken-Ascending q.order_by q.limit (filter q.condition t.outbox);
  select_outbox_limit =
      λ q t. omega (arith, length-take q.limit (sort_by q.order_by (filter q.condition t.outbox)));
  write_outbox_sound = λ rows t t' h. sym (ok-injective h);
  flush_nothing = λ t. refl;
  flush_ok = λ r m t h. (0, insert-ok r m t h);
  flush_inserts = λ r m t t' h. let (free, e) = insert-inserts r m t h in (free, (0, e));
  flush_fails = insert-fails;
  flush_duplicate = λ r m t ids messages columns checks storable taken. (
    idempotency_key_constraint,
    insert-duplicate r m t ids messages columns checks taken,
    occurs_refl,
  );
  store_keeps = λ r. record { same = refl; amount = λ h. (h, refl); created_at = λ now e. e };
  statement_fails = λ k e h. cc;
  others_IsTables = λ k t h. h;
  others_Evolves = λ k t h. Evolves-refl t;
  uuids_range = λ k. omega arith;
}
