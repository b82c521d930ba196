-- ===== src/Service/Passing.antt =====
-- app/infrastructure/broker/outbox_relay.py: the tables after a pass of the relay, however it ends.
use secunda_test.Base.{
  ◌≡◌, refl, sym, ◌∙◌, ◌⊎◌, inl, inr, ◌+◌, ℕ, Option-cases, none, some, List, [], map, All, All-map,
  Exc, Result, ok, err,
}
use mathlib.Core.Path.{subst}
use secunda_test.Exec.{Exec, ◌>>◌, pure, continue, Returns-ok, continue-lift, continue-keeps_ok}
use secunda_test.Infrastructure.Models.{OutboxMessageModel, Tables}
use secunda_test.Infrastructure.Platform.{System, World}
use secunda_test.Infrastructure.Platform.Laws.{IsLawful, rewritten}
use secunda_test.Infrastructure.Session.{seen, arrived}
use secunda_test.Infrastructure.Session.Statements.{statement-ok, statement-fault}
use secunda_test.Infrastructure.Session.Steady.{seen_clean}
use secunda_test.Service.NewPayment.{SameSession}
use secunda_test.Service.Relaying.{relay_all-IsQuiet}
use secunda_test.Service.Batches.{
  published-arrived, statements-arrived, locked, locked-unpublished, lock_unpublished-locked,
}
use secunda_test.Infrastructure.Relay.{
  OutboxSettings, relay_all, lock_unpublished, write_rows, written, publish_batch,
}
use secunda_test.Service.Marking.{Sent, AllSent, relay_all-Sent}

-- How the tables can be after a pass, `rows` being what it writes: those that others have committed
-- when its last statement has arrived, with or without these rows.
abbrev pub OutcomeOf : System → World → List OutboxMessageModel → Tables → Type 0
OutcomeOf sys w rows t =
    let before : Tables = sys.others w.statements w.tables in
    let later : Tables = sys.others (w.statements + 1) before in
    (t ≡ before) ⊎ (t ≡ later) ⊎ (t ≡ record later { outbox = map (rewritten rows) later.outbox })

write_rows-lem :
    (sys : System) (rows : List OutboxMessageModel) (v : World)
    → sys.statement_fault v.statements ≡ none
    → write_rows sys rows v
      ≡ written sys (sys.write_outbox rows (seen (arrived sys v))) (arrived sys v)
unfolding write_rows
write_rows-lem sys rows v h = rw (statement-ok sys v h, continue) refl

write_rows-fault :
    (sys : System) (rows : List OutboxMessageModel) (v : World) (e : Exc)
    → sys.statement_fault v.statements ≡ some e
    → write_rows sys rows v ≡ (err e, arrived sys v)
unfolding write_rows
write_rows-fault sys rows v e h = rw (statement-fault sys v e h, continue) refl

tables-arrived :
    (sys : System) (v : World)
    → v.dirty ≡ none
    → (arrived sys v).tables ≡ sys.others v.statements v.tables
unfolding arrived
tables-arrived sys v clean = rw clean refl

dirty-arrived : (sys : System) (v : World) → v.dirty ≡ none → (arrived sys v).dirty ≡ none
unfolding arrived
dirty-arrived sys v clean = clean

module _ {sys : System} (lawful : IsLawful sys) (settings : OutboxSettings) (w : World) where
  -- The rows that a pass writes are those that it has locked, and were sent if they are marked.
  abbrev pub PassOf : World → Type 0
  PassOf v =
      (rows : List OutboxMessageModel) × All (Sent (locked sys settings w) v.published) rows
      × OutcomeOf sys w rows v.tables

  written-PassOf :
      (rows : List OutboxMessageModel) (u : World) (r : Result Tables)
      → r ≡ sys.write_outbox rows (seen u)
      → u.dirty ≡ none
      → u.tables ≡ sys.others (w.statements + 1) (sys.others w.statements w.tables)
      → All (Sent (locked sys settings w) u.published) rows
      → PassOf (written sys r u).1
  unfolding written
  written-PassOf rows u (err e) same clean there sent = (rows, sent, inr (inl there))
  written-PassOf rows u (ok t) same clean there sent =
      let is_seen : seen u ≡ u.tables = seen_clean u clean in
      let wrote : t ≡ record u.tables { outbox = map (rewritten rows) u.tables.outbox } =
        lawful.write_outbox_sound rows u.tables t
          (sym (subst (λ (x : Tables). ok t ≡ sys.write_outbox rows x) is_seen same)) in
      (
        rows,
        sent,
        inr (
            inr (
              subst (λ (x : Tables). t ≡ record x { outbox = map (rewritten rows) x.outbox }) there
                wrote)),
      )

  write_rows-PassOf :
      (rows : List OutboxMessageModel) (v : World)
      → v.dirty ≡ none
      → v.statements ≡ w.statements + 1
      → v.tables ≡ sys.others w.statements w.tables
      → All (Sent (locked sys settings w) v.published) rows
      → PassOf (write_rows sys rows v).1
  write_rows-PassOf rows v clean asked before sent =
      let there : (arrived sys v).tables
          ≡ sys.others (w.statements + 1) (sys.others w.statements w.tables) =
        tables-arrived sys v clean ∙ rw (asked, before) refl in
      let still : All (Sent (locked sys settings w) (arrived sys v).published) rows =
        subst (λ ps. All (Sent (locked sys settings w) ps) rows) (sym (published-arrived sys v))
          sent in
      elim (Option-cases (sys.statement_fault v.statements)) [
        | inr (x, e) ↦
            subst (λ (q : Result (Unit {0}) × World). PassOf q.1)
              (sym (write_rows-fault sys rows v x e)) (rows, still, inr (inl there))
        | inl e ↦
            subst (λ (q : Result (Unit {0}) × World). PassOf q.1)
              (sym (write_rows-lem sys rows v e))
              (written-PassOf rows (arrived sys v) (sys.write_outbox rows (seen (arrived sys v)))
                refl (dirty-arrived sys v clean) there still)
      ]

  abbrev pass : Result (ℕ × List OutboxMessageModel) × World
  pass = relay_all sys (locked sys settings w) (arrived sys w)

  abbrev ending : ℕ × List OutboxMessageModel → Exec World ℕ
  ending r = write_rows sys r.1 >> pure r.0

  publish_batch-lem :
      w.dirty ≡ none
      → sys.statement_fault w.statements ≡ none
      → publish_batch sys settings w ≡ continue pass.0 ending pass.1
  unfolding publish_batch
  publish_batch-lem clean fault =
      rw (lock_unpublished-locked sys settings w clean fault, continue) refl

  publish_batch-fault :
      (e : Exc)
      → sys.statement_fault w.statements ≡ some e
      → publish_batch sys settings w ≡ (err e, arrived sys w)
  unfolding publish_batch lock_unpublished
  publish_batch-fault e h = rw (statement-fault sys w e h, continue) refl

  nothing_written : (v : World) → v.tables ≡ sys.others w.statements w.tables → PassOf v
  nothing_written v there = ([], tt, inl there)

  passed-PassOf : w.dirty ≡ none → PassOf (continue pass.0 ending pass.1).1
  passed-PassOf clean =
      let ms = locked sys settings w in
      let sound = locked-unpublished sys settings w lawful in
      let sent = relay_all-Sent sys ms (arrived sys w) (All-map _ _ (λ m h. h.1) ms sound) in
      let same : SameSession (arrived sys w) pass.1 = relay_all-IsQuiet sys ms (arrived sys w) in
      let there = same.tables ∙ tables-arrived sys w clean in
      continue-keeps_ok PassOf pass.0 ending pass.1 (nothing_written pass.1 there) (λ r e.
        let q = write_rows sys r.1 pass.1 in
        subst PassOf (sym (continue-lift q.0 (λ u. ok r.0) q.1)) (
          write_rows-PassOf r.1 pass.1 (same.dirty ∙ dirty-arrived sys w clean)
            (same.statements ∙ statements-arrived sys w) there
            (Returns-ok (λ (r : ℕ × List OutboxMessageModel) (v : World). AllSent ms v.published r)
              pass e sent.0)))

  -- Under a lawful system, a pass from a session with no transaction open marks no message that it
  -- has not sent, whatever fails: however it ends, the tables are those that others have committed,
  -- with or without the rows that it writes; these are rows that it has locked but for the columns
  -- of the relay, and each of them that is marked as published has its message among those sent.
  pub publish_batch-PassOf : w.dirty ≡ none → PassOf (publish_batch sys settings w).1
  publish_batch-PassOf clean = elim (Option-cases (sys.statement_fault w.statements)) [
    | inl e ↦
        subst (λ (q : Result ℕ × World). PassOf q.1) (sym (publish_batch-lem clean e))
          (passed-PassOf clean)
    | inr (x, e) ↦
        subst (λ (q : Result ℕ × World). PassOf q.1) (sym (publish_batch-fault x e))
          (nothing_written (arrived sys w) (tables-arrived sys w clean))
  ]
