-- ===== src/Service/Turning.antt =====
-- app/infrastructure/broker/outbox_relay.py: the loop of the relay goes on, and does not spin.
use secunda_test.Base.{
  ℕ, zero, suc, true, false, ◌+◌, ◌≡◌, ◌≤◌, refl, ap, ◌∙◌, Option-cases, Result-cases, inl, inr,
  none, some, List, [], ◌∷◌, if◌then◌else◌, ◌==◌, length, length-append, count, All-map, Exc,
  is_exception, Result, ok, err, arith,
}
use secunda_test.Exec.{continue, catch, pure, raise, ◌>>=◌, ◌>>◌}
use secunda_test.Infrastructure.Models.{OutboxMessageModel, Tables, is_published}
use secunda_test.Infrastructure.Platform.{System, World, sleep}
use secunda_test.Infrastructure.Platform.Laws.{IsLawful}
use secunda_test.Infrastructure.Session.{seen, arrived}
use secunda_test.Infrastructure.Session.Statements.{statement-ok, statement-fault}
use secunda_test.Infrastructure.Relay.{
  OutboxSettings, lock_unpublished, write_rows, written, publish_batch, pause, run_once, run,
}
use secunda_test.Infrastructure.Relay.Batch.{sent_of, relay_all-IsPass}
use secunda_test.Service.Relaying.{relay_all-IsQuiet}
use secunda_test.Service.Awake.{relay_all-Awake}
use secunda_test.Service.Batches.{locked, locked-unpublished, relayed, lock_unpublished-locked}

-- What the relay has done: the messages that it has sent and the pauses that it has made.
abbrev pub work : World → ℕ
work w = length w.published + length w.sleeps

abbrev gain : Result ℕ → ℕ
gain (ok n) = n
gain (err e) = 0

abbrev IsCaught : Result ℕ → Type 0
IsCaught (ok n) = Unit {0}
IsCaught (err e) = is_exception e ≡ true

record Turned (w : World) (out : Result ℕ × World) : Type 0 where
  pub caught : IsCaught out.0
  pub gained : work w + gain out.0 ≤ work out.1
  pub clean : out.1.dirty ≡ none

-- No call is cancelled.
pub record IsUncancelled (sys : System) : Type 0 where
  pub statements : (k : ℕ) (e : Exc) → sys.statement_fault k ≡ some e → is_exception e ≡ true
  pub publishes : (k : ℕ) (e : Exc) → sys.publish_fault k ≡ some e → is_exception e ≡ true
  pub writes :
      (rows : List OutboxMessageModel) (t : Tables) (e : Exc)
      → sys.write_outbox rows t ≡ err e
      → is_exception e ≡ true

sent_of-count : (rows : List OutboxMessageModel) → length (sent_of rows) ≡ count is_published rows
sent_of-count [] = refl
sent_of-count (m ∷ ms) = ground (arith, sent_of-count ms)

module _ {sys : System} (lawful : IsLawful sys) (running : IsUncancelled sys)
    (settings : OutboxSettings) where
  work-arrived : (w : World) → work (arrived sys w) ≡ work w
  unfolding arrived
  work-arrived w = refl

  clean-arrived : (w : World) → w.dirty ≡ none → (arrived sys w).dirty ≡ none
  unfolding arrived
  clean-arrived w h = h

  -- The end of a pass that has sent `n` messages.
  written-Turned :
      (w u : World) (n : ℕ) (rows : List OutboxMessageModel)
      → work w + n ≤ work u
      → u.dirty ≡ none
      → Turned w ((write_rows sys rows >> pure n) u)
  unfolding write_rows written
  written-Turned w u n rows grown clean = elim (Option-cases (sys.statement_fault u.statements)) [
    | inr (e, fault) ↦
        rw (statement-fault sys u e fault, continue)
          (record {
            caught = running.statements u.statements e fault;
            gained = rw (work-arrived u) (omega (arith, grown));
            clean = clean-arrived u clean;
          })
    | inl fault ↦ elim (Result-cases (sys.write_outbox rows (seen (arrived sys u)))) [
      | inl (t, wrote) ↦
          rw (statement-ok sys u fault, continue, wrote)
            (record {
              caught = tt;
              gained = rw (work-arrived u) grown;
              clean = clean-arrived u clean;
            })
      | inr (e, failed) ↦
          rw (statement-ok sys u fault, continue, failed)
            (record {
              caught = running.writes rows (seen (arrived sys u)) e failed;
              gained = rw (work-arrived u) (omega (arith, grown));
              clean = clean-arrived u clean;
            })
    ]
  ]

  lock_unpublished-fault :
      (w : World) (e : Exc)
      → sys.statement_fault w.statements ≡ some e
      → lock_unpublished sys settings w ≡ (err e, arrived sys w)
  unfolding lock_unpublished
  lock_unpublished-fault w e fault = rw (statement-fault sys w e fault, continue)

  publish_batch-Turned : (w : World) → w.dirty ≡ none → Turned w (publish_batch sys settings w)
  unfolding publish_batch
  publish_batch-Turned w clean = elim (Option-cases (sys.statement_fault w.statements)) [
    | inr (e, fault) ↦
        rw (lock_unpublished-fault w e fault, continue)
          (record {
            caught = running.statements w.statements e fault;
            gained = rw (work-arrived w) (omega arith);
            clean = clean-arrived w clean;
          })
    | inl fault ↦
        let ms = locked sys settings w in
        let sound = locked-unpublished sys settings w lawful in
        let pass =
          relay_all-IsPass sys running.publishes ms (arrived sys w)
            (All-map _ _ (λ m h. h.1) ms sound) in
        let u : World = relayed sys settings w in
        let same = relay_all-IsQuiet sys ms (arrived sys w) in
        let awake : u.sleeps ≡ (arrived sys w).sleeps =
          relay_all-Awake sys (arrived sys w) ms (arrived sys w) refl in
        let grown : work w + pass.sent ≤ work u =
          let posted : length u.published
              ≡ length (arrived sys w).published + length (sent_of pass.rows) =
            ap length pass.published
            ∙ length-append (arrived sys w).published (sent_of pass.rows) in
          let slept : length u.sleeps ≡ length (arrived sys w).sleeps = ap length awake in
          omega (arith, posted, slept, sent_of-count pass.rows, pass.counted, work-arrived w) in
        rw (lock_unpublished-locked sys settings w clean fault, continue, pass.returns)
          (written-Turned w u pass.sent pass.rows grown (same.dirty ∙ clean-arrived w clean))
  ]

  abbrev turned : Result ℕ × World → Result (Unit {0}) × World
  turned q =
      (catch (λ w. q) (λ e. if is_exception e then pure 0 else raise e) >>= pause sys settings) q.1

  turned-progress :
      (w : World) (q : Result ℕ × World)
      → Turned w q
      → ((turned q).0 ≡ ok tt) × (work w + 1 ≤ work (turned q).1) × ((turned q).1.dirty ≡ none)
  unfolding pause sleep
  turned-progress w (ok zero, v) h =
      (refl, omega (arith, length-append v.sleeps (settings.poll_interval ∷ []), h.gained), h.clean)
  turned-progress w (ok (suc n), v) h =
      let some_sent : (suc n == 0) ≡ false = ground arith in
      rw some_sent (refl, omega (arith, h.gained), h.clean)
  turned-progress w (err e, v) h =
      rw h.caught (
        refl,
        omega (arith, length-append v.sleeps (settings.poll_interval ∷ []), h.gained),
        h.clean,
      )

  run_once-progress :
      (w : World)
      → w.dirty ≡ none
      → ((run_once sys settings w).0 ≡ ok tt)
        × (work w + 1 ≤ work (run_once sys settings w).1)
        × ((run_once sys settings w).1.dirty ≡ none)
  unfolding run_once
  run_once-progress w clean =
      turned-progress w (publish_batch sys settings w) (publish_batch-Turned w clean)

  -- If no call is cancelled, the loop of the relay never ends by itself: each number of turns comes
  -- to its end, whatever statements, publications and writes fail, and each turn has sent a message
  -- or paused, so that the loop does not spin.
  pub run-progress :
      (turns : ℕ) (w : World)
      → w.dirty ≡ none
      → ((run sys settings turns w).0 ≡ ok tt)
        × (work w + turns ≤ work (run sys settings turns w).1)
  unfolding run
  run-progress zero w clean = (refl, omega arith)
  run-progress (suc turns) w clean =
      let (done, gained, next_clean) = run_once-progress w clean in
      let rest = run-progress turns (run_once sys settings w).1 next_clean in
      rw (done, continue) (rest.0, omega (arith, gained, rest.1))
