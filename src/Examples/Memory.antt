-- ===== src/Examples/Memory.antt =====
-- A database, a clock and a broker in memory: one session, and nothing that fails.
use secunda_test.Base.{
  ℕ, ltb, some, http_error, ◌+◌, ◌%◌, ◌^◌, Bool, true, false, ◌&&◌, none, List, [], ◌∷◌, ◌++◌, map,
  if◌then◌else◌, ◌==◌, leb, lit, text_eq, length, count, integrity_error, Result, ok, err, take,
}
use secunda_test.Py.Datetime.{Instant}
use secunda_test.Infrastructure.Models.{PaymentModel, OutboxMessageModel, Tables, passes_checks}
use secunda_test.Infrastructure.Platform.{System, World}
use secunda_test.Infrastructure.Platform.Laws.{apply_where, rewritten}
use secunda_test.Infrastructure.Session.{idempotency_key_constraint}

abbrev pub none_of : {A : Type 0} → (A → Bool) → List A → Bool
none_of clash [] = true
none_of clash (x ∷ xs) = if clash x then false else none_of clash xs

abbrev pub filter : {A : Type 0} → (A → Bool) → List A → List A
filter p [] = []
filter p (x ∷ xs) = if p x then x ∷ filter p xs else filter p xs

abbrev pub insert_by : {A : Type 0} → (A → ℕ) → A → List A → List A
insert_by key x [] = x ∷ []
insert_by key x (y ∷ ys) =
    let rest = insert_by key x ys in if leb (key x) (key y) then x ∷ y ∷ ys else y ∷ rest

abbrev pub sort_by : {A : Type 0} → (A → ℕ) → List A → List A
sort_by key [] = []
sort_by key (x ∷ xs) = insert_by key x (sort_by key xs)

-- All that a new row must satisfy but for the unique key.
abbrev pub acceptable : PaymentModel → OutboxMessageModel → Tables → Bool
acceptable r m t =
    leb (length r.idempotency_key) 255
    && leb (length r.request_hash) 64
    && passes_checks r
    && none_of (λ (s : PaymentModel). s.id == r.id) t.payments
    && none_of (λ (n : OutboxMessageModel). n.id == m.id) t.outbox

abbrev pub key_is_free : PaymentModel → Tables → Bool
key_is_free r t =
    none_of (λ (s : PaymentModel). text_eq s.idempotency_key r.idempotency_key) t.payments

abbrev pub plus_row : PaymentModel → OutboxMessageModel → Tables → Tables
plus_row r m t = record {
  payments = t.payments ++ r ∷ [];
  outbox = t.outbox ++ record m { created_at = 0 } ∷ [];
}

abbrev pub insert : PaymentModel → OutboxMessageModel → Tables → Result Tables
insert r m t =
    if acceptable r m t
    then if key_is_free r t
      then ok (plus_row r m t)
      else err (integrity_error idempotency_key_constraint)
    else err (integrity_error (lit "another constraint"))

abbrev pub flush : List PaymentModel → List OutboxMessageModel → Tables → Result Tables
flush [] [] t = ok t
flush (r ∷ []) (m ∷ []) t = insert r m t
flush _ _ t = err (integrity_error (lit "a row without its event"))

-- 2026-01-01T00:00:00
abbrev pub start_of_2026 : Instant
start_of_2026 = record {
  year = 2026;
  month = 1;
  day = 1;
  hour = 0;
  minute = 0;
  second = 0;
  microsecond = 0;
}

unfoldable pub memory : System
memory = record {
  select_payments = λ p t. filter p t.payments;
  update_payments =
      λ p f t. ok (record t { payments = map (apply_where p f) t.payments }, count p t.payments);
  select_outbox = λ q t. take q.limit (sort_by q.order_by (filter q.condition t.outbox));
  write_outbox = λ rows t. ok (record t { outbox = map (rewritten rows) t.outbox });
  flush = flush;
  storable = λ r. true;
  store = λ r. r;
  others = λ k t. t;
  statement_fault = λ k. none;
  uuids = λ k. (k + 1) % 2 ^ 128;
  clock = λ k. start_of_2026;
  random = λ k. 0;
  post_answer = λ k. ok 200;
  raise_for_status = λ status.
      if leb 200 status && ltb status 300
      then none
      else some (http_error (lit "HTTPStatusError") []);
  publish_fault = λ k. none;
}

abbrev pub empty_world : World
empty_world = record {
  tables = record { payments = []; outbox = [] };
  dirty = none;
  new_payments = [];
  new_outbox = [];
  statements = 0;
  uuids_drawn = 0;
  clock_reads = 0;
  randoms = 0;
  charges = [];
  posts = [];
  sleeps = [];
  published = [];
  publishes = 0;
}
