-- ===== src/Service/Relaying.antt =====
-- app/infrastructure/broker/outbox_relay.py: the tables under a pass of the relay.
use mathlib.Core.Path.{subst}
use secunda_test.Base.{
  ◌≡◌, refl, sym, Bool-cases, Option-cases, inl, inr, List, [], ◌∷◌, map, ◌==◌, Exc, is_exception,
  Result, ok, err,
}
use secunda_test.Exec.{continue-keeps, ◌>>◌}
use secunda_test.Infrastructure.Models.{OutboxMessageModel, PaymentModel, Tables}
use secunda_test.Infrastructure.Invariant.{IsEventOf, Announced}
use secunda_test.Infrastructure.Platform.{System, World, utc_now}
use secunda_test.Infrastructure.Platform.Laws.{IsLawful, rewritten}
use secunda_test.Infrastructure.Session.{seen, statement}
use secunda_test.Infrastructure.Session.Statements.{statement-ok, statement-fault}
use secunda_test.Infrastructure.Session.Steady.{seen_clean}
use secunda_test.Infrastructure.Relay.{
  OutboxSettings, publish_event, on_publish_error, mark_published, relay_one, relay_all,
  lock_unpublished, write_rows, publish_batch, event_message, written,
}
use secunda_test.Service.Processing.{IsQuiet}
use secunda_test.Service.Settled.{
  Settled, same_session, bind-IsQuiet, catch-IsQuiet, publish-IsQuiet, quiet-Settled,
  arrived-Settled,
}

-- The three columns that the relay writes are none of those that the invariant is about.
rewritten-IsEventOf :
    (rows : List OutboxMessageModel) (r : PaymentModel) (m : OutboxMessageModel)
    → IsEventOf r m
    → IsEventOf r (rewritten rows m)
rewritten-IsEventOf [] r m h = h
rewritten-IsEventOf (n ∷ ns) r m h = elim (Bool-cases (n.id == m.id)) [
  | inl e ↦ rw e (record { aggregate = h.aggregate; type = h.type; payment_id = h.payment_id })
  | inr e ↦ rw e (rewritten-IsEventOf ns r m h)
]

rewritten-Announced :
    (rows : List OutboxMessageModel) (rs : List PaymentModel) (ms : List OutboxMessageModel)
    → Announced rs ms
    → Announced rs (map (rewritten rows) ms)
rewritten-Announced rows [] [] h = tt
rewritten-Announced rows [] (m ∷ ms) h = absurd h
rewritten-Announced rows (r ∷ rs) [] h = absurd h
rewritten-Announced rows (r ∷ rs) (m ∷ ms) h =
    (rewritten-IsEventOf rows r m h.0, rewritten-Announced rows rs ms h.1)

module _ (sys : System) where
  on_publish_error-IsQuiet : (m : OutboxMessageModel) (e : Exc) → IsQuiet (on_publish_error sys m e)
  unfolding on_publish_error
  on_publish_error-IsQuiet m e w = elim (Bool-cases (is_exception e)) [
    | inl h ↦ rw h (same_session w)
    | inr h ↦ rw h (same_session w)
  ]

  mark_published-IsQuiet : (m : OutboxMessageModel) → IsQuiet (mark_published sys m)
  unfolding mark_published utc_now
  mark_published-IsQuiet m w = record {
    tables = refl;
    dirty = refl;
    new_payments = refl;
    new_outbox = refl;
    statements = refl;
  }

  publish_event-IsQuiet :
      (m : OutboxMessageModel) → IsQuiet (publish_event sys m.id m.event_type m.payload)
  unfolding publish_event
  publish_event-IsQuiet m = publish-IsQuiet sys (event_message m.id m.event_type m.payload)

  relay_one-IsQuiet : (m : OutboxMessageModel) → IsQuiet (relay_one sys m)
  unfolding relay_one
  relay_one-IsQuiet m =
      catch-IsQuiet (do publish_event sys m.id m.event_type m.payload; mark_published sys m)
        (on_publish_error sys m)
        (bind-IsQuiet (publish_event sys m.id m.event_type m.payload) (λ u. mark_published sys m)
          (publish_event-IsQuiet m) (λ u. mark_published-IsQuiet m))
        (on_publish_error-IsQuiet m)

  pub relay_all-IsQuiet : (ms : List OutboxMessageModel) → IsQuiet (relay_all sys ms)
  unfolding relay_all
  relay_all-IsQuiet [] w = same_session w
  relay_all-IsQuiet (m ∷ ms) w =
      bind-IsQuiet (relay_one sys m) _ (relay_one-IsQuiet m)
        (λ one. bind-IsQuiet (relay_all sys ms) _ (relay_all-IsQuiet ms) (λ rest v. same_session v))
        w

module _ {sys : System} (lawful : IsLawful sys) (t : Tables) where
  statement-Settled : (w : World) → Settled t w → Settled t (statement sys w).1
  statement-Settled w h = elim (Option-cases (sys.statement_fault w.statements)) [
    | inl e ↦ rw (statement-ok sys w e) (arrived-Settled lawful t w h)
    | inr (x, e) ↦ rw (statement-fault sys w x e) (arrived-Settled lawful t w h)
  ]

  lock_unpublished-Settled :
      (settings : OutboxSettings) (w : World)
      → Settled t w
      → Settled t (lock_unpublished sys settings w).1
  unfolding lock_unpublished
  lock_unpublished-Settled settings w h =
      let v = statement sys w in
      continue-keeps (Settled t) v.0 _ v.1 (statement-Settled w h) (λ u. statement-Settled w h)

  written-Settled :
      (rows : List OutboxMessageModel) (v : World) (r : Result Tables)
      → r ≡ sys.write_outbox rows (seen v)
      → Settled t v
      → Settled t (written sys r v).1
  unfolding written
  written-Settled rows v (err e) same h = h
  written-Settled rows v (ok t') same h =
      let is_seen : seen v ≡ v.tables = seen_clean v h.idle.clean in
      let wrote : t' ≡ record v.tables { outbox = map (rewritten rows) v.tables.outbox } =
        lawful.write_outbox_sound rows v.tables t'
          (sym (subst (λ (x : Tables). ok t' ≡ sys.write_outbox rows x) is_seen same)) in
      record {
        working = record {
          valid = rw wrote (record {
            distinct = h.working.valid.distinct;
            rows = h.working.valid.rows;
            announced =
                rewritten-Announced rows v.tables.payments v.tables.outbox
                  h.working.valid.announced;
          });
          evolved = rw wrote (record { at = h.working.evolved.at });
          open_valid = λ u e. cc (h.idle.clean, e);
          no_payments = h.idle.no_payments;
          no_outbox = h.idle.no_outbox;
        };
        idle = record {
          clean = h.idle.clean;
          no_payments = h.idle.no_payments;
          no_outbox = h.idle.no_outbox;
        };
      }

  write_rows-Settled :
      (rows : List OutboxMessageModel) (w : World)
      → Settled t w
      → Settled t (write_rows sys rows w).1
  unfolding write_rows
  write_rows-Settled rows w h =
      let v = statement sys w in
      continue-keeps (Settled t) v.0 (λ u w. written sys (sys.write_outbox rows (seen w)) w) v.1
        (statement-Settled w h)
        (λ u.
          written-Settled rows v.1 (sys.write_outbox rows (seen v.1)) refl (statement-Settled w h))

  pub publish_batch-Settled :
      (settings : OutboxSettings) (w : World)
      → Settled t w
      → Settled t (publish_batch sys settings w).1
  unfolding publish_batch
  publish_batch-Settled settings w h =
      let v = lock_unpublished sys settings w in
      let hv = lock_unpublished-Settled settings w h in
      continue-keeps (Settled t) v.0 _ v.1 hv (λ messages.
        let q = relay_all sys messages v.1 in
        let hq = quiet-Settled t (relay_all sys messages) v.1 (relay_all-IsQuiet sys messages) hv in
        continue-keeps (Settled t) q.0 _ q.1 hq (λ sent.
          continue-keeps (Settled t) (write_rows sys sent.1 q.1).0 _ (write_rows sys sent.1 q.1).1
            (write_rows-Settled sent.1 q.1 hq) (λ u. write_rows-Settled sent.1 q.1 hq)))
