-- ===== src/Service/Batches.antt =====
-- app/infrastructure/broker/outbox_relay.py: a pass of the relay over the table, from the query to
-- the commit.
use secunda_test.Base.{
  ℕ, true, ◌+◌, ◌≡◌, ◌≤◌, refl, sym, ap, ◌∙◌, none, Option, some, List, ◌++◌, map, length, count,
  All, Member, Exc, is_exception, Result, ok, All-map,
}
use mathlib.Core.Path.{subst}
use secunda_test.Exec.{continue}
use secunda_test.Infrastructure.Models.{OutboxMessageModel, Tables, is_published, is_none}
use secunda_test.Infrastructure.Platform.{System, World}
use secunda_test.Infrastructure.Platform.Laws.{IsLawful, rewritten, Ascending}
use secunda_test.Infrastructure.Session.{seen, arrived}
use secunda_test.Infrastructure.Session.Statements.{statement-ok}
use secunda_test.Infrastructure.Session.Steady.{seen_clean}
use secunda_test.Infrastructure.Relay.{
  OutboxSettings, outbox_query, relay_all, lock_unpublished, write_rows, written, publish_batch,
}
use secunda_test.Infrastructure.Relay.Batch.{Each, sent_of, relay_all-IsPass}
use secunda_test.Service.NewPayment.{SameSession}
use secunda_test.Service.Relaying.{relay_all-IsQuiet}

is_none_sound : {A : Type 0} (o : Option A) → is_none o ≡ true → o ≡ none
unfolding is_none
is_none_sound none h = refl
is_none_sound (some a) h = cc h

module _ (sys : System) (settings : OutboxSettings) (w : World) where
  -- The rows that the pass locks, and the tables that it writes to.
  abbrev pub locked : List OutboxMessageModel
  locked = sys.select_outbox (outbox_query settings) (arrived sys w).tables

  abbrev pub relayed : World
  relayed = (relay_all sys locked (arrived sys w)).1

  -- The pass returns the number of messages that it has sent. They are those among the locked rows
  -- that it marks; the locked rows are unpublished ones, in order and no more than the batch size;
  -- and the columns of the relay are all that it writes.
  pub record IsBatch (out : Result ℕ × World) : Type 0 where
    pub rows : List OutboxMessageModel
    pub locked_sound :
        All (λ m. Member m (arrived sys w).tables.outbox × (m.published_at ≡ none)) locked
    pub ordered : Ascending (λ (m : OutboxMessageModel). m.created_at) locked
    pub limited : length locked ≤ settings.batch_size
    pub each : Each sys.publish_fault w.publishes locked rows
    pub returns : out.0 ≡ ok (count is_published rows)
    pub published : out.1.published ≡ w.published ++ sent_of rows
    pub tables : out.1.tables ≡ record (arrived sys relayed).tables {
      outbox = map (rewritten rows) (arrived sys relayed).tables.outbox;
    }

  -- The rows that the query returns are unpublished ones.
  pub locked-unpublished :
      IsLawful sys
      → All (λ m. Member m (arrived sys w).tables.outbox × (m.published_at ≡ none)) locked
  unfolding outbox_query
  locked-unpublished lawful =
      All-map _ _ (λ m h. (h.0, is_none_sound m.published_at h.1)) locked
        (lawful.select_outbox_sound (outbox_query settings) (arrived sys w).tables)

  locked-ordered : IsLawful sys → Ascending (λ (m : OutboxMessageModel). m.created_at) locked
  unfolding outbox_query
  locked-ordered lawful =
      lawful.select_outbox_ordered (outbox_query settings) (arrived sys w).tables

  locked-limited : IsLawful sys → length locked ≤ settings.batch_size
  unfolding outbox_query
  locked-limited lawful = lawful.select_outbox_limit (outbox_query settings) (arrived sys w).tables

  pub lock_unpublished-locked :
      w.dirty ≡ none
      → sys.statement_fault w.statements ≡ none
      → lock_unpublished sys settings w ≡ (ok locked, arrived sys w)
  unfolding lock_unpublished
  lock_unpublished-locked clean fault =
      let same : seen (arrived sys w) ≡ (arrived sys w).tables =
        seen_clean (arrived sys w) (unfold arrived in clean) in
      rw (statement-ok sys w fault, continue, same)

pub statements-arrived : (sys : System) (w : World) → (arrived sys w).statements ≡ w.statements + 1
unfolding arrived
statements-arrived sys w = refl

pub published-arrived : (sys : System) (w : World) → (arrived sys w).published ≡ w.published
unfolding arrived
published-arrived sys w = refl

publishes-arrived : (sys : System) (w : World) → (arrived sys w).publishes ≡ w.publishes
unfolding arrived
publishes-arrived sys w = refl

write_rows-ok :
    (sys : System) (rows : List OutboxMessageModel) (w : World) (t : Tables)
    → w.dirty ≡ none
    → sys.statement_fault w.statements ≡ none
    → sys.write_outbox rows (arrived sys w).tables ≡ ok t
    → write_rows sys rows w ≡ (ok tt, record (arrived sys w) { tables = t })
unfolding write_rows written
write_rows-ok sys rows w t clean fault wrote =
    let same : seen (arrived sys w) ≡ (arrived sys w).tables =
      seen_clean (arrived sys w) (unfold arrived in clean) in
    rw (statement-ok sys w fault, continue, same, wrote)

-- Under a lawful system, a pass whose two statements reach the server, whose rows the server
-- accepts, and whose broker fails with ordinary exceptions only, returns, however many of its
-- publications fail: of the unpublished messages that the query returns, in the order of
-- their creation and no more than the batch size, it has sent those that it marks and counts; each
-- other one has an attempt more and the text of the exception that its publication has raised; and
-- these columns of the locked rows are all that it has written.
pub publish_batch-IsBatch :
    (sys : System) (lawful : IsLawful sys)
    (caught : (k : ℕ) (e : Exc) → sys.publish_fault k ≡ some e → is_exception e ≡ true)
    (accepted : (rows : List OutboxMessageModel) (t : Tables)
      → (t' : Tables) × (sys.write_outbox rows t ≡ ok t'))
    (settings : OutboxSettings) (w : World)
    → w.dirty ≡ none
    → sys.statement_fault w.statements ≡ none
    → sys.statement_fault (w.statements + 1) ≡ none
    → IsBatch sys settings w (publish_batch sys settings w)
unfolding publish_batch
publish_batch-IsBatch sys lawful caught accepted settings w clean fault fault' =
    let ms = locked sys settings w in
    let sound = locked-unpublished sys settings w lawful in
    let pass = relay_all-IsPass sys caught ms (arrived sys w) (All-map _ _ (λ m h. h.1) ms sound) in
    let u : World = relayed sys settings w in
    let same : SameSession (arrived sys w) u = relay_all-IsQuiet sys ms (arrived sys w) in
    let u_clean : u.dirty ≡ none = same.dirty ∙ (unfold arrived in clean) in
    let u_fault : sys.statement_fault u.statements ≡ none =
      ap sys.statement_fault (same.statements ∙ statements-arrived sys w) ∙ fault' in
    let (t', wrote) = accepted pass.rows (arrived sys u).tables in
    let ended : publish_batch sys settings w
        ≡ (ok pass.sent, record (arrived sys u) { tables = t' }) =
      rw (
        lock_unpublished-locked sys settings w clean fault,
        continue,
        pass.returns,
        write_rows-ok sys pass.rows u t' u_clean u_fault wrote,
      ) in
    record {
      rows = pass.rows;
      locked_sound = sound;
      ordered = locked-ordered sys settings w lawful;
      limited = locked-limited sys settings w lawful;
      each = subst (λ k. Each sys.publish_fault k ms pass.rows) (publishes-arrived sys w) pass.each;
      returns = ap (λ (q : Result ℕ × World). q.0) ended ∙ ap ok (sym pass.counted);
      published =
          ap (λ (q : Result ℕ × World). q.1.published) ended
          ∙ (published-arrived sys u
              ∙ (pass.published ∙ ap (λ ps. ps ++ sent_of pass.rows) (published-arrived sys w)));
      tables =
          ap (λ (q : Result ℕ × World). q.1.tables) ended
          ∙ lawful.write_outbox_sound pass.rows (arrived sys u).tables t' wrote;
    }
