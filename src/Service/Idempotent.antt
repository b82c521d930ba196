-- ===== src/Service/Idempotent.antt =====
-- app/application/payment/use_cases/create_payment.py: one payment for one idempotency key.
use secunda_test.Base.{
  ◌≡◌, refl, sym, ap, ◌∙◌, Option, none, some, List, Text, text_eq_complete, ok, Member, first-some,
  first_unique,
}
use mathlib.Core.Path.{subst}
use secunda_test.Py.Uuid.{Uuid}
use secunda_test.Application.Dto.{CreatePaymentCommand, CreatePaymentResult}
use secunda_test.Infrastructure.Models.{PaymentModel, Tables, find_payment, Distinct}
use secunda_test.Infrastructure.Invariant.{
  IsTables, Evolves, LaterOption, Evolves-trans, find-eq-first, id-find_payment, count_key-le-one,
}
use secunda_test.Infrastructure.Platform.{System, World}
use secunda_test.Infrastructure.Platform.Laws.{IsLawful}
use secunda_test.Infrastructure.Repositories.{has_id, has_key}
use secunda_test.Service.{create_use_case}
use secunda_test.Service.Creating.{IsIdle}
use secunda_test.Service.Keeping.{create_use_case-keeps}
use secunda_test.Service.Durable.{create_use_case-Stands}
use secunda_test.Service.Stored.{Stands}

some_injective : {r s : PaymentModel} → some r ≡ some s → r ≡ s
some_injective {r} e = ap (λ o. elim o [ none ↦ r | some x ↦ x ]) e

Member-find_payment :
    (id : Uuid) (rs : List PaymentModel) {r : PaymentModel}
    → find_payment id rs ≡ some r
    → Member r rs
Member-find_payment id rs h = (first-some (has_id id) rs (sym (find-eq-first id rs) ∙ h)).0

-- Rows that are found under one key are one row.
key_determines :
    (a b : Uuid) (key : Text) (rs : List PaymentModel) {r s : PaymentModel}
    → Distinct rs
    → find_payment a rs ≡ some r
    → find_payment b rs ≡ some s
    → r.idempotency_key ≡ key
    → s.idempotency_key ≡ key
    → r ≡ s
key_determines a b key rs {r} {s} distinct found_r found_s key_r key_s =
    let one = count_key-le-one key rs distinct in
    some_injective (
      sym (
        first_unique (has_key key) rs one (Member-find_payment a rs found_r)
          (text_eq_complete r.idempotency_key key key_r))
      ∙ first_unique (has_key key) rs one (Member-find_payment b rs found_s)
          (text_eq_complete s.idempotency_key key key_s))

-- A row that was found is found later, under the same key and with the same hash.
later_row :
    (o : Option PaymentModel) (r : PaymentModel)
    → LaterOption (some r) o
    → (r' : PaymentModel) × (o ≡ some r')
      × (r'.idempotency_key ≡ r.idempotency_key)
      × (r'.request_hash ≡ r.request_hash)
later_row none r h = absurd h
later_row (some r') r h = (
  r',
  refl,
  ap (λ (x : PaymentModel). x.idempotency_key) h.same,
  ap (λ (x : PaymentModel). x.request_hash) h.same,
)

-- Under a lawful system, if two creations with the same idempotency key both return, the second from
-- tables that have evolved from those that the first has left, then they return payments with the
-- same identifier, and their requests have the same hash.
pub create_use_case-idempotent :
    (sys : System) (c d : CreatePaymentCommand) (v w : World) (r s : CreatePaymentResult)
    → IsLawful sys
    → IsIdle v
    → IsTables v.tables
    → IsIdle w
    → IsTables w.tables
    → Evolves (create_use_case sys c v).1.tables w.tables
    → c.idempotency_key ≡ d.idempotency_key
    → (create_use_case sys c v).0 ≡ ok r
    → (create_use_case sys d w).0 ≡ ok s
    → (r.payment.id ≡ s.payment.id) × (c.request_hash ≡ d.request_hash)
create_use_case-idempotent sys c d v w r s lawful idle_v valid_v idle_w valid_w between key er es =
    let t : Tables = (create_use_case sys c v).1.tables in
    let u : Tables = (create_use_case sys d w).1.tables in
    let first_one : Stands c r.payment t =
      create_use_case-Stands sys c v r lawful idle_v valid_v er in
    let second : Stands d s.payment u = create_use_case-Stands sys d w s lawful idle_w valid_w es in
    let (valid_u, during) = create_use_case-keeps sys d w lawful idle_w valid_w in
    let evolved : Evolves t u = Evolves-trans t w.tables u between during in
    let at : LaterOption (some first_one.row) (find_payment r.payment.id u.payments) =
      subst (λ o. LaterOption o (find_payment r.payment.id u.payments)) first_one.found
        (evolved.at r.payment.id) in
    let later = later_row (find_payment r.payment.id u.payments) first_one.row at in
    let same : later.0 ≡ second.row =
      key_determines r.payment.id s.payment.id d.idempotency_key u.payments valid_u.distinct later.1
        second.found (later.2 ∙ first_one.key ∙ key) second.key in
    (
      sym (id-find_payment r.payment.id u.payments later.1)
          ∙ ap (λ (x : PaymentModel). x.id) same
          ∙ id-find_payment s.payment.id u.payments second.found,
      sym (later.3 ∙ first_one.hash) ∙ ap (λ (x : PaymentModel). x.request_hash) same ∙ second.hash,
    )
