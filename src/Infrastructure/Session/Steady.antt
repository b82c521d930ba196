-- ===== src/Infrastructure/Session/Steady.antt =====
-- app/infrastructure/db/uow.py: what a session does to the tables, with other sessions at work.
use secunda_test.Base.{
  ◌≡◌, refl, sym, ◌∙◌, none, some, [], ◌∷◌, Text, Exc, Result, ok, err, Option-cases, inl, inr, ℕ,
}
use mathlib.Core.Path.{subst}
use secunda_test.Py.Uuid.{Uuid}
use secunda_test.Domain.Payment.{Payment}
use secunda_test.Domain.Payment.Invariant.{IsPayment}
use secunda_test.Py.Datetime.{Instant, in_utc}
use secunda_test.Application.Events.{payment_created}
use secunda_test.Infrastructure.Models.{PaymentModel, OutboxMessageModel, Tables}
use secunda_test.Infrastructure.Mappers.{payment_to_model}
use secunda_test.Infrastructure.Invariant.{IsTables, Evolves, Evolves-trans}
use secunda_test.Infrastructure.Platform.{System, World}
use secunda_test.Infrastructure.Platform.Laws.{IsLawful, Insertable, inserted}
use secunda_test.Infrastructure.Platform.Insert.{
  store-IsRow, store-IsEventOf, inserted-IsTables, append-Evolves,
}
use secunda_test.Infrastructure.Session.{
  arrived, session_commit, commit, translated, rollback, seen, flushed,
}
use secunda_test.Infrastructure.Session.Statements.{statement-ok, statement-fault}
use secunda_test.Infrastructure.Repositories.{outbox_row}
use secunda_test.Exec.{catch-raise, catch}

-- No UPDATE is open, the invariant of the tables holds, and they have evolved from `t`.
pub record Steady (t : Tables) (w : World) : Type 0 where
  pub clean : w.dirty ≡ none
  pub valid : IsTables w.tables
  pub evolved : Evolves t w.tables

pub seen_clean : (w : World) → w.dirty ≡ none → seen w ≡ w.tables
seen_clean w h = rw h

module _ (sys : System) (w : World) where
  pub session_commit-fault :
      (e : Exc)
      → sys.statement_fault w.statements ≡ some e
      → session_commit sys w ≡ (err e, record (arrived sys w) { dirty = none })
  unfolding session_commit
  session_commit-fault e h = rw (statement-fault sys w e h, catch, statement-fault sys w e h)

  pub session_commit-flush :
      sys.statement_fault w.statements ≡ none
      → session_commit sys w
        ≡ flushed
            (sys.flush
              (arrived sys w).new_payments
              (arrived sys w).new_outbox
              (seen (arrived sys w)))
            (arrived sys w)
  unfolding session_commit
  session_commit-flush h = rw (statement-ok sys w h, catch, statement-ok sys w h)

module _ {sys : System} (lawful : IsLawful sys) (t : Tables) where
  pub arrived-Steady : (w : World) → Steady t w → Steady t (arrived sys w)
  unfolding arrived
  arrived-Steady w h = rw h.clean (record {
    clean = refl;
    valid = lawful.others_IsTables w.statements w.tables h.valid;
    evolved =
        Evolves-trans t w.tables (sys.others w.statements w.tables) h.evolved
          (lawful.others_Evolves w.statements w.tables h.valid);
  })

  pub rollback-Steady : (w : World) → Steady t w → Steady t (rollback w).1
  unfolding rollback
  rollback-Steady w h = record { clean = refl; valid = h.valid; evolved = h.evolved }

  module _ (p : Payment) (hash : Text) (id : Uuid) (now : Instant) (valid : IsPayment p)
      (utc : p.created_at ≡ in_utc now) where
    abbrev row : PaymentModel
    row = payment_to_model p hash

    abbrev message : OutboxMessageModel
    message = outbox_row (payment_created p id)

    flushed-Steady :
        (v : World) (u : Tables) (r : Result Tables)
        → Steady t v
        → ((u' : Tables)
            → r ≡ ok u'
            → Insertable sys row message u × ((at : ℕ) × (u' ≡ inserted sys row message at u)))
        → v.tables ≡ u
        → Steady t (flushed r v).1
    unfolding flushed
    flushed-Steady v u (err e) h ins same = record {
      clean = refl;
      valid = h.valid;
      evolved = h.evolved;
    }
    flushed-Steady v u (ok u') h ins same =
        let (free, made) = ins u' refl in
        let (at, e) = made in
        let valid_u : IsTables u = subst IsTables same h.valid in
        let evolved_u : Evolves t u = subst (Evolves t) same h.evolved in
        rw e (record {
          clean = refl;
          valid =
              inserted-IsTables lawful row message at u free
                (store-IsRow lawful p hash now valid utc) (store-IsEventOf lawful p hash id at)
                valid_u;
          evolved =
              Evolves-trans t u (inserted sys row message at u) evolved_u (append-Evolves u _ _);
        })

    -- The commit of a session that has added a payment and its event.
    session_commit-Steady :
        (w : World)
        → Steady t w
        → w.new_payments ≡ row ∷ []
        → w.new_outbox ≡ message ∷ []
        → Steady t (session_commit sys w).1
    session_commit-Steady w h new_p new_o =
        let v : World = arrived sys w in
        let hv : Steady t v = arrived-Steady w h in
        let p_v : v.new_payments ≡ row ∷ [] = unfold arrived in new_p in
        let o_v : v.new_outbox ≡ message ∷ [] = unfold arrived in new_o in
        let seen_v : seen v ≡ v.tables = seen_clean v hv.clean in
        elim (Option-cases (sys.statement_fault w.statements)) [
          | inr (e, fault) ↦
              rw (session_commit-fault sys w e fault)
                (record { clean = refl; valid = hv.valid; evolved = hv.evolved })
          | inl fault ↦
              let r : Result Tables = sys.flush v.new_payments v.new_outbox (seen v) in
              let same : sys.flush (row ∷ []) (message ∷ []) v.tables ≡ r = cc (p_v, o_v, seen_v) in
              subst (λ (q : Result (Unit {0}) × World). Steady t q.1)
                (sym (session_commit-flush sys w fault))
                (flushed-Steady v v.tables r hv
                  (λ u' e. lawful.flush_inserts row message v.tables u' (same ∙ e)) refl)
        ]

    pub commit-Steady :
        (w : World)
        → Steady t w
        → w.new_payments ≡ row ∷ []
        → w.new_outbox ≡ message ∷ []
        → Steady t (commit sys w).1
    unfolding commit
    commit-Steady w h new_p new_o =
        rw (catch-raise (session_commit sys) (translated sys) w)
          (session_commit-Steady w h new_p new_o)
