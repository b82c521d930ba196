-- ===== src/Infrastructure/Invariant.antt =====
-- The invariant of the tables payments and outbox (app/infrastructure/db/models.py), and what one
-- session may change of the rows that another has seen.
use secunda_test.Base.{
  ◌≤◌, ◌≡◌, refl, sym, ap, ◌∙◌, false, Option, none, some, List, [], ◌∷◌, ◌==◌, Text, lit, ok, All,
  first, count, arith, Bool-cases, inl, inr, text_eq, text_eq_sound, ==_iff,
}
use mathlib.Core.Path.{subst}
use secunda_test.Py.Uuid.{Uuid, show_uuid}
use secunda_test.Py.Json.{str, get_field}
use secunda_test.Domain.Enums.{is_pending}
use secunda_test.Domain.Payment.{Payment}
use secunda_test.Domain.Payment.Invariant.{IsPayment}
use secunda_test.Application.Events.{payment_created_name}
use secunda_test.Infrastructure.Models.{
  PaymentModel, OutboxMessageModel, Tables, find_payment, IdFree, KeyFree, Distinct,
}
use secunda_test.Infrastructure.Mappers.{payment_from_model}

-- The row is read as a payment that satisfies the invariant of payments.
pub record IsRow (r : PaymentModel) : Type 0 where
  pub payment : Payment
  pub reads : payment_from_model r ≡ ok payment
  pub valid : IsPayment payment

-- The message announces the payment of the row.
pub record IsEventOf (r : PaymentModel) (m : OutboxMessageModel) : Type 0 where
  pub aggregate : m.aggregate_id ≡ r.id
  pub type : m.event_type ≡ payment_created_name
  pub payment_id : get_field (lit "payment_id") m.payload ≡ some (str (show_uuid r.id))

-- One message for each payment, in the order in which they were committed.
abbrev pub Announced : List PaymentModel → List OutboxMessageModel → Type 0
Announced [] [] = Unit {0}
Announced [] (m ∷ ms) = ⊥
Announced (r ∷ rs) [] = ⊥
Announced (r ∷ rs) (m ∷ ms) = IsEventOf r m × Announced rs ms

pub record IsTables (t : Tables) : Type 0 where
  pub distinct : Distinct t.payments
  pub rows : All IsRow t.payments
  pub announced : Announced t.payments t.outbox

-- `r'` is `r` at a later time: what the client asked for is the same, and a final outcome stays.
pub record Later (r r' : PaymentModel) : Type 0 where
  pub same : r' ≡ record r { status = r'.status; processed_at = r'.processed_at }
  pub settled : is_pending r.status ≡ false → r' ≡ r

abbrev pub LaterOption : Option PaymentModel → Option PaymentModel → Type 0
LaterOption none o = Unit {0}
LaterOption (some r) none = ⊥
LaterOption (some r) (some r') = Later r r'

-- No payment is lost, none is asked for anew, and no final outcome changes.
pub record Evolves (t t' : Tables) : Type 0 where
  pub at : (id : Uuid) → LaterOption (find_payment id t.payments) (find_payment id t'.payments)

Later-refl : (r : PaymentModel) → Later r r
Later-refl r = record { same = refl; settled = λ h. refl }

pub LaterOption-refl : (o : Option PaymentModel) → LaterOption o o
LaterOption-refl none = tt
LaterOption-refl (some r) = Later-refl r

pub Evolves-refl : (t : Tables) → Evolves t t
Evolves-refl t = record { at = λ id. LaterOption-refl (find_payment id t.payments) }

Later-trans : (r s t : PaymentModel) → Later r s → Later s t → Later r t
Later-trans r s t h k = record {
  same =
      k.same
      ∙ ap (λ (x : PaymentModel). record x { status = t.status; processed_at = t.processed_at })
          h.same;
  settled = λ e.
      k.settled (subst (λ (x : PaymentModel). is_pending x.status ≡ false) (sym (h.settled e)) e)
      ∙ h.settled e;
}

LaterOption-trans :
    (o p q : Option PaymentModel) → LaterOption o p → LaterOption p q → LaterOption o q
LaterOption-trans none p q h k = tt
LaterOption-trans (some r) none q h k = absurd h
LaterOption-trans (some r) (some s) none h k = k
LaterOption-trans (some r) (some s) (some t) h k = Later-trans r s t h k

pub Evolves-trans : (t u v : Tables) → Evolves t u → Evolves u v → Evolves t v
Evolves-trans t u v h k = record {
  at = λ id.
      LaterOption-trans (find_payment id t.payments) (find_payment id u.payments)
        (find_payment id v.payments) (h.at id) (k.at id);
}

-- A property of every row holds of the row that is found.
pub find-All :
    (P : PaymentModel → Type 0) (id : Uuid) (rs : List PaymentModel) {r : PaymentModel}
    → All P rs
    → find_payment id rs ≡ some r
    → P r
find-All P id [] all h = cc
find-All P id (s ∷ rs) {r} all h = elim (Bool-cases (s.id == id)) [
  | inl e ↦ let same : s ≡ r = ground arith in rw (← same) all.0
  | inr e ↦ find-All P id rs all.1 (ground arith)
]

pub id-find_payment :
    (id : Uuid) (rs : List PaymentModel) {r : PaymentModel}
    → find_payment id rs ≡ some r
    → r.id ≡ id
id-find_payment id [] h = cc
id-find_payment id (s ∷ rs) {r} h = ground (arith, id-find_payment id rs {r = r})

pub find-IdFree : (id : Uuid) (rs : List PaymentModel) → IdFree id rs → find_payment id rs ≡ none
find-IdFree id [] h = refl
find-IdFree id (s ∷ rs) h = ground (arith, find-IdFree id rs h.1)

pub find-eq-first :
    (id : Uuid) (rs : List PaymentModel) → find_payment id rs ≡ first (λ r. r.id == id) rs
find-eq-first id [] = refl
find-eq-first id (s ∷ rs) = ground (arith, find-eq-first id rs)

-- In distinct rows a key, and an identifier, stands once at most.
count-KeyFree :
    (key : Text) (rs : List PaymentModel)
    → KeyFree key rs
    → count (λ r. text_eq r.idempotency_key key) rs ≡ 0
count-KeyFree key [] h = refl
count-KeyFree key (s ∷ rs) h =
    ground (arith, text_eq_sound s.idempotency_key key, h.0, count-KeyFree key rs h.1)

count-IdFree : (id : Uuid) (rs : List PaymentModel) → IdFree id rs → count (λ r. r.id == id) rs ≡ 0
count-IdFree id [] h = refl
count-IdFree id (s ∷ rs) h = ground (arith, h.0, count-IdFree id rs h.1)

pub count_key-le-one :
    (key : Text) (rs : List PaymentModel)
    → Distinct rs
    → count (λ r. text_eq r.idempotency_key key) rs ≤ 1
count_key-le-one key [] h = omega arith
count_key-le-one key (s ∷ rs) h = elim (Bool-cases (text_eq s.idempotency_key key)) [
  | inl e ↦
      rw e (omega (arith, count-KeyFree key rs (rw (text_eq_sound s.idempotency_key key e) at h.1)))
  | inr e ↦ rw e (count_key-le-one key rs h.2)
]

pub count_id-le-one :
    (id : Uuid) (rs : List PaymentModel) → Distinct rs → count (λ r. r.id == id) rs ≤ 1
count_id-le-one id [] h = omega arith
count_id-le-one id (s ∷ rs) h = elim (Bool-cases (s.id == id)) [
  | inl e ↦ rw e (omega (arith, count-IdFree id rs (rw ((==_iff s.id id).0 e) at h.0)))
  | inr e ↦ rw e (count_id-le-one id rs h.2)
]
