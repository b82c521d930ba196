-- ===== src/Infrastructure/Relay/Batch.antt =====
-- app/infrastructure/broker/outbox_relay.py: what one pass of the loop does to its messages.
use secunda_test.Base.{
  ℕ, ◌+◌, ◌≡◌, refl, ap, sym, ◌∙◌, inl, inr, Bool, true, false, Option-cases, none, some, List, [],
  ◌∷◌, ◌++◌, if◌then◌else◌, take, count, Exc, is_exception, message_of, Result, ok, err, All, arith,
  append_one, append_nil, Option,
}
use secunda_test.Exec.{continue, catch}
use secunda_test.Py.Datetime.{in_utc}
use secunda_test.Infrastructure.Models.{OutboxMessageModel, is_published}
use secunda_test.Infrastructure.Platform.{System, World, Publication, publish, utc_now}
use secunda_test.Infrastructure.Relay.{
  event_message, max_error_length, publish_event, on_publish_error, mark_published, relay_one,
  relay_all,
}

-- What a message becomes by the fault of its publication: without one it is marked as published, and
-- one that is raised counts as an attempt and leaves its text, cut to 500 characters.
abbrev pub Relayed : Option Exc → OutboxMessageModel → OutboxMessageModel → Type 0
Relayed none m m' = (m' ≡ record m { published_at = m'.published_at }) × (is_published m' ≡ true)
Relayed (some e) m m' =
    m' ≡ record m { attempts = m.attempts + 1; last_error = some (take 500 (message_of e)) }

-- The messages are published one after the other, from the call with the number `k` on.
abbrev pub Each : (ℕ → Option Exc) → ℕ → List OutboxMessageModel → List OutboxMessageModel → Type 0
Each fault k [] [] = Unit {0}
Each fault k [] (m' ∷ ms') = ⊥
Each fault k (m ∷ ms) [] = ⊥
Each fault k (m ∷ ms) (m' ∷ ms') = Relayed (fault k) m m' × Each fault (k + 1) ms ms'

-- The publications of the messages that are marked as published, in their order.
abbrev pub sent_of : List OutboxMessageModel → List Publication
sent_of [] = []
sent_of (m ∷ ms) =
    if is_published m then event_message m.id m.event_type m.payload ∷ sent_of ms else sent_of ms

-- The pass ends with a row for each message, counts the published ones, has sent exactly those, and
-- has not touched the tables.
pub record IsPass (sys : System) (ms : List OutboxMessageModel) (w : World)
    (out : Result (ℕ × List OutboxMessageModel) × World) : Type 0 where
  pub sent : ℕ
  pub rows : List OutboxMessageModel
  pub returns : out.0 ≡ ok (sent, rows)
  pub each : Each sys.publish_fault w.publishes ms rows
  pub counted : count is_published rows ≡ sent
  pub published : out.1.published ≡ w.published ++ sent_of rows
  pub tables : out.1.tables ≡ w.tables

module _ (sys : System) where
  abbrev after_sent : OutboxMessageModel → World → World
  after_sent m w = record w {
    published = w.published ++ event_message m.id m.event_type m.payload ∷ [];
    publishes = w.publishes + 1;
    clock_reads = w.clock_reads + 1;
  }

  abbrev after_failed : World → World
  after_failed w = record w { publishes = w.publishes + 1 }

  publish_event-ok :
      (m : OutboxMessageModel) (w : World)
      → sys.publish_fault w.publishes ≡ none
      → publish_event sys m.id m.event_type m.payload w ≡ (
        ok tt,
        record w {
          published = w.published ++ event_message m.id m.event_type m.payload ∷ [];
          publishes = w.publishes + 1;
        },
      )
  unfolding publish_event publish
  publish_event-ok m w h = ground (arith, h)

  pub publish_event-fault :
      (m : OutboxMessageModel) (w : World) (e : Exc)
      → sys.publish_fault w.publishes ≡ some e
      → publish_event sys m.id m.event_type m.payload w
        ≡ (err e, record w { publishes = w.publishes + 1 })
  unfolding publish_event publish
  publish_event-fault m w e h = ground (arith, h)

  pub relay_one-sent :
      (m : OutboxMessageModel) (w : World)
      → sys.publish_fault w.publishes ≡ none
      → relay_one sys m w ≡ (
        ok (true, record m { published_at = some (in_utc (sys.clock w.clock_reads)) }),
        record w {
          published = w.published ++ event_message m.id m.event_type m.payload ∷ [];
          publishes = w.publishes + 1;
          clock_reads = w.clock_reads + 1;
        },
      )
  unfolding relay_one mark_published utc_now
  relay_one-sent m w h = rw (publish_event-ok m w h, catch, publish_event-ok m w h)

module _ (sys : System)
    (caught : (k : ℕ) (e : Exc) → sys.publish_fault k ≡ some e → is_exception e ≡ true) where
  relay_one-failed :
      (m : OutboxMessageModel) (w : World) (e : Exc)
      → sys.publish_fault w.publishes ≡ some e
      → relay_one sys m w ≡ (
        ok (
          false,
          record m {
            attempts = m.attempts + 1;
            last_error = some (take max_error_length (message_of e));
          },
        ),
        record w { publishes = w.publishes + 1 },
      )
  unfolding relay_one on_publish_error
  relay_one-failed m w e h = rw (
    publish_event-fault sys m w e h,
    catch,
    caught w.publishes e h,
    publish_event-fault sys m w e h,
  )

  relay_all-step :
      (m m' : OutboxMessageModel) (ms : List OutboxMessageModel) (b : Bool) (w w' : World)
      → relay_one sys m w ≡ (ok (b, m'), w')
      → (rest : IsPass sys ms w' (relay_all sys ms w'))
      → relay_all sys (m ∷ ms) w
        ≡ (ok ((if b then rest.sent + 1 else rest.sent), m' ∷ rest.rows), (relay_all sys ms w').1)
  unfolding relay_all
  relay_all-step m m' ms b w w' one rest = rw (one, continue, rest.returns)

  sent-IsPass :
      (m : OutboxMessageModel) (ms : List OutboxMessageModel) (w : World)
      → sys.publish_fault w.publishes ≡ none
      → IsPass sys ms (after_sent sys m w) (relay_all sys ms (after_sent sys m w))
      → IsPass sys (m ∷ ms) w (relay_all sys (m ∷ ms) w)
  sent-IsPass m ms w up rest =
      let m' = record m { published_at = some (in_utc (sys.clock w.clock_reads)) } in
      let step =
        relay_all-step m m' ms true w (after_sent sys m w) (relay_one-sent sys m w up) rest in
      record {
        sent = rest.sent + 1;
        rows = m' ∷ rest.rows;
        returns = ap (λ (q : Result (ℕ × List OutboxMessageModel) × World). q.0) step;
        each = (rw up (refl, refl), rest.each);
        counted = omega (arith, rest.counted);
        published =
            ap (λ (q : Result (ℕ × List OutboxMessageModel) × World). q.1.published) step
            ∙ rest.published
            ∙ append_one w.published (event_message m.id m.event_type m.payload)
                (sent_of rest.rows);
        tables =
            ap (λ (q : Result (ℕ × List OutboxMessageModel) × World). q.1.tables) step
            ∙ rest.tables;
      }

  skipped :
      (m : OutboxMessageModel) (ms : List OutboxMessageModel)
      → m.published_at ≡ none
      → sent_of (m ∷ ms) ≡ sent_of ms
  skipped m ms h = rw h

  failed-IsPass :
      (m : OutboxMessageModel) (ms : List OutboxMessageModel) (w : World) (e : Exc)
      → m.published_at ≡ none
      → sys.publish_fault w.publishes ≡ some e
      → IsPass sys ms (after_failed sys w) (relay_all sys ms (after_failed sys w))
      → IsPass sys (m ∷ ms) w (relay_all sys (m ∷ ms) w)
  failed-IsPass m ms w e unsent fault rest =
      let m' = record m {
        attempts = m.attempts + 1;
        last_error = some (take max_error_length (message_of e));
      } in
      let step =
        relay_all-step m m' ms false w (after_failed sys w) (relay_one-failed m w e fault) rest in
      record {
        sent = rest.sent;
        rows = m' ∷ rest.rows;
        returns = ap (λ (q : Result (ℕ × List OutboxMessageModel) × World). q.0) step;
        each = (rw fault refl, rest.each);
        counted = rw unsent rest.counted;
        published =
            ap (λ (q : Result (ℕ × List OutboxMessageModel) × World). q.1.published) step
            ∙ rest.published
            ∙ ap (λ ps. w.published ++ ps) (sym (skipped m' rest.rows unsent));
        tables =
            ap (λ (q : Result (ℕ × List OutboxMessageModel) × World). q.1.tables) step
            ∙ rest.tables;
      }

  -- If the broker's failures are ordinary exceptions, a pass over messages that are not published
  -- ends for every one of them: it marks those that it has sent, in their order, and counts them;
  -- for each other one it counts the attempt and keeps the text of the exception that its own
  -- publication has raised, cut to 500 characters. The tables are not touched.
  pub relay_all-IsPass :
      (ms : List OutboxMessageModel) (w : World)
      → All (λ m. m.published_at ≡ none) ms
      → IsPass sys ms w (relay_all sys ms w)
  relay_all-IsPass [] w h = record {
    sent = 0;
    rows = [];
    returns = unfold relay_all in refl;
    each = tt;
    counted = refl;
    published = unfold relay_all in sym (append_nil w.published);
    tables = unfold relay_all in refl;
  }
  relay_all-IsPass (m ∷ ms) w h = elim (Option-cases (sys.publish_fault w.publishes)) [
    | inl up ↦ sent-IsPass m ms w up (relay_all-IsPass ms (after_sent sys m w) h.1)
    | inr (e, fault) ↦
        failed-IsPass m ms w e h.0 fault (relay_all-IsPass ms (after_failed sys w) h.1)
  ]
