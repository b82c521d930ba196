-- ===== src/Infrastructure/Platform/Laws.antt =====
-- What the service relies on of the systems outside: the documented behaviour of the statements that
-- it sends, of the column types, and of the drivers' exceptions.
use secunda_test.Base.{
  zero, suc, ◌+◌, ◌*◌, ℕ, ◌^◌, ◌<◌, ◌≤◌, ◌≡◌, Bool, true, some, List, ◌==◌, [], ◌∷◌, ◌++◌, map,
  if◌then◌else◌, Text, length, Exc, integrity_error, other_error, cancelled_error, ok, err, All,
  Member, count,
}
use secunda_test.Py.Numbers.{pos, negsuc}
use secunda_test.Py.Decimal.{Decimal, finite, infinity, nan}
use secunda_test.Py.Datetime.{Instant, in_utc}
use secunda_test.Domain.Values.Checks.{IsAmount}
use secunda_test.Infrastructure.Models.{
  PaymentModel, OutboxMessageModel, Tables, passes_checks, FitsColumns, IdFree, KeyFree,
  MessageFree,
}
use secunda_test.Infrastructure.Invariant.{IsTables, Evolves}
use secunda_test.Infrastructure.Platform.{System, OutboxQuery}
use secunda_test.Infrastructure.Session.{occurs, idempotency_key_constraint}

-- A number of cents, of an amount with at most two places.
abbrev pub cents : Decimal → ℕ
cents (finite s c (pos e)) = c * 10 ^ (e + 2)
cents (finite s c (negsuc zero)) = c * 10
cents (finite s c (negsuc (suc k))) = c
cents (infinity s) = 0
cents (nan s) = 0

-- What the constraints of the tables and the column types allow to be inserted.
pub record Insertable (sys : System) (r : PaymentModel) (m : OutboxMessageModel) (t : Tables)
    : Type 0 where
  pub storable : sys.storable r ≡ true
  pub columns : FitsColumns r
  pub checks : passes_checks r ≡ true
  pub id_free : IdFree r.id t.payments
  pub key_free : KeyFree r.idempotency_key t.payments
  pub message_free : MessageFree m.id t.outbox

-- The tables after the insertion; `now` is the server's time.
abbrev pub inserted : System → PaymentModel → OutboxMessageModel → ℕ → Tables → Tables
inserted sys r m now t = record {
  payments = t.payments ++ sys.store r ∷ [];
  outbox = t.outbox ++ record m { created_at = now } ∷ [];
}

abbrev pub apply_where :
    (PaymentModel → Bool) → (PaymentModel → PaymentModel) → PaymentModel → PaymentModel
apply_where p f r = if p r then f r else r

-- A row of the outbox after the columns that the relay has changed are written by primary key.
abbrev pub rewritten : List OutboxMessageModel → OutboxMessageModel → OutboxMessageModel
rewritten [] m = m
rewritten (n ∷ ns) m =
    let rest = rewritten ns m in
    if n.id == m.id
    then record m {
      published_at = n.published_at;
      attempts = n.attempts;
      last_error = n.last_error;
    }
    else rest

-- An exception of the database driver, or one of the event loop: none of the service's own.
abbrev pub IsDriverError : Exc → Type 0
IsDriverError (integrity_error m) = Unit {0}
IsDriverError (other_error name m) = Unit {0}
IsDriverError cancelled_error = Unit {0}
IsDriverError _ = ⊥

abbrev pub IsConnectionError : Exc → Type 0
IsConnectionError (other_error name m) = Unit {0}
IsConnectionError cancelled_error = Unit {0}
IsConnectionError _ = ⊥

-- How the column types hold a row: `Numeric(18, 2)` keeps the value of an amount of at most two
-- places, JSONB may reorder the metadata, and a time in UTC comes back as it was.
pub record Kept (r s : PaymentModel) : Type 0 where
  pub same : s ≡ record r { amount = s.amount; meta = s.meta; created_at = s.created_at }
  pub amount : IsAmount r.amount → IsAmount s.amount × (cents s.amount ≡ cents r.amount)
  pub created_at : (now : Instant) → r.created_at ≡ in_utc now → s.created_at ≡ in_utc now

abbrev pub Ascending : {A : Type 0} → (A → ℕ) → List A → Type 0
Ascending key [] = Unit {0}
Ascending key (x ∷ xs) = All (λ y. key x ≤ key y) xs × Ascending key xs

pub record IsLawful (sys : System) : Type 0 where
  -- a SELECT returns the rows that pass, each once
  pub select_sound :
      (p : PaymentModel → Bool) (t : Tables)
      → All (λ r. Member r t.payments × (p r ≡ true)) (sys.select_payments p t)
  pub select_length :
      (p : PaymentModel → Bool) (t : Tables) → length (sys.select_payments p t) ≡ count p t.payments
  -- an UPDATE of columns without a unique index, if the checks hold of every new row
  pub update_ok :
      (p : PaymentModel → Bool) (f : PaymentModel → PaymentModel) (t : Tables)
      → ((r : PaymentModel) → ((f r).id ≡ r.id) × ((f r).idempotency_key ≡ r.idempotency_key))
      → ((r : PaymentModel) → passes_checks r ≡ true → passes_checks (f r) ≡ true)
      → sys.update_payments p f t
        ≡ ok (record t { payments = map (apply_where p f) t.payments }, count p t.payments)
  -- a SELECT of the outbox returns rows that pass, in ascending order, and no more than the limit
  pub select_outbox_sound :
      (q : OutboxQuery) (t : Tables)
      → All (λ m. Member m t.outbox × (q.condition m ≡ true)) (sys.select_outbox q t)
  pub select_outbox_ordered :
      (q : OutboxQuery) (t : Tables) → Ascending q.order_by (sys.select_outbox q t)
  pub select_outbox_limit :
      (q : OutboxQuery) (t : Tables) → length (sys.select_outbox q t) ≤ q.limit
  pub write_outbox_sound :
      (rows : List OutboxMessageModel) (t t' : Tables)
      → sys.write_outbox rows t ≡ ok t'
      → t' ≡ record t { outbox = map (rewritten rows) t.outbox }
  pub flush_nothing : (t : Tables) → sys.flush [] [] t ≡ ok t
  pub flush_ok :
      (r : PaymentModel) (m : OutboxMessageModel) (t : Tables)
      → Insertable sys r m t
      → (now : ℕ) × (sys.flush (r ∷ []) (m ∷ []) t ≡ ok (inserted sys r m now t))
  pub flush_inserts :
      (r : PaymentModel) (m : OutboxMessageModel) (t t' : Tables)
      → sys.flush (r ∷ []) (m ∷ []) t ≡ ok t'
      → Insertable sys r m t × ((now : ℕ) × (t' ≡ inserted sys r m now t))
  pub flush_fails :
      (r : PaymentModel) (m : OutboxMessageModel) (t : Tables) (e : Exc)
      → sys.flush (r ∷ []) (m ∷ []) t ≡ err e
      → IsDriverError e
  -- the constraint is named exactly if the key is taken, where nothing else is violated
  pub flush_duplicate :
      (r : PaymentModel) (m : OutboxMessageModel) (t : Tables)
      → IdFree r.id t.payments
      → MessageFree m.id t.outbox
      → FitsColumns r
      → passes_checks r ≡ true
      → sys.storable r ≡ true
      → ¬ KeyFree r.idempotency_key t.payments
      → (message : Text) × (sys.flush (r ∷ []) (m ∷ []) t ≡ err (integrity_error message))
        × (occurs idempotency_key_constraint message ≡ true)
  pub store_keeps : (r : PaymentModel) → Kept r (sys.store r)
  pub statement_fails : (k : ℕ) (e : Exc) → sys.statement_fault k ≡ some e → IsConnectionError e
  -- the other sessions are sessions of this service
  pub others_IsTables : (k : ℕ) (t : Tables) → IsTables t → IsTables (sys.others k t)
  pub others_Evolves : (k : ℕ) (t : Tables) → IsTables t → Evolves t (sys.others k t)
  pub uuids_range : (k : ℕ) → sys.uuids k < 2 ^ 128
