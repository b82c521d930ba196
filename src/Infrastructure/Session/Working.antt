-- ===== src/Infrastructure/Session/Working.antt =====
-- app/infrastructure/db/uow.py and app/infrastructure/db/repositories/payment.py: a session that
-- inserts no rows, with or without an open UPDATE.
use mathlib.Core.Path.{subst}
use secunda_test.Base.{◌≡◌, refl, sym, ◌∙◌, none, some, [], Result, ok, Option-cases, inl, inr}
use secunda_test.Exec.{catch-raise}
use secunda_test.Infrastructure.Models.{Tables}
use secunda_test.Infrastructure.Invariant.{IsTables, Evolves, Evolves-trans}
use secunda_test.Infrastructure.Platform.{System, World}
use secunda_test.Infrastructure.Platform.Laws.{IsLawful}
use secunda_test.Infrastructure.Session.{
  arrived, session_commit, commit, translated, rollback, seen, flushed,
}
use secunda_test.Infrastructure.Session.Steady.{session_commit-fault, session_commit-flush}

-- What is committed, and what an open UPDATE would commit, satisfies the invariant and has evolved
-- from `t`.
pub record Working (t : Tables) (w : World) : Type 0 where
  pub valid : IsTables w.tables
  pub evolved : Evolves t w.tables
  pub open_valid : (u : Tables) → w.dirty ≡ some u → IsTables u × Evolves t u
  pub no_payments : w.new_payments ≡ []
  pub no_outbox : w.new_outbox ≡ []

pub seen-valid : {t : Tables} (w : World) → Working t w → IsTables (seen w) × Evolves t (seen w)
seen-valid w h = elim (Option-cases w.dirty) [
  | inl e ↦ rw e (h.valid, h.evolved)
  | inr (u, e) ↦ rw e (h.open_valid u e)
]

module _ {sys : System} (lawful : IsLawful sys) (t : Tables) where
  pub arrived-Working : (w : World) → Working t w → Working t (arrived sys w)
  unfolding arrived
  arrived-Working w h = elim (Option-cases w.dirty) [
    | inl e ↦ record {
      valid = rw e (lawful.others_IsTables w.statements w.tables h.valid);
      evolved = rw e (
          Evolves-trans t w.tables (sys.others w.statements w.tables) h.evolved
            (lawful.others_Evolves w.statements w.tables h.valid));
      open_valid = h.open_valid;
      no_payments = h.no_payments;
      no_outbox = h.no_outbox;
    }
    | inr (u, e) ↦ record {
      valid = rw e h.valid;
      evolved = rw e h.evolved;
      open_valid = h.open_valid;
      no_payments = h.no_payments;
      no_outbox = h.no_outbox;
    }
  ]

  pub rollback-Working : (w : World) → Working t w → Working t (rollback w).1
  unfolding rollback
  rollback-Working w h = record {
    valid = h.valid;
    evolved = h.evolved;
    open_valid = λ u e. cc;
    no_payments = refl;
    no_outbox = refl;
  }

  -- The end of a transaction that failed, or that commits what was seen.
  closed-Working : (w : World) → Working t w → Working t (record w { dirty = none })
  closed-Working w h = record {
    valid = h.valid;
    evolved = h.evolved;
    open_valid = λ u e. cc;
    no_payments = h.no_payments;
    no_outbox = h.no_outbox;
  }

  flushed-Working :
      (v : World) (r : Result Tables) → Working t v → r ≡ ok (seen v) → Working t (flushed r v).1
  unfolding flushed
  flushed-Working v r h e = rw e (record {
    valid = (seen-valid v h).0;
    evolved = (seen-valid v h).1;
    open_valid = λ u q. cc;
    no_payments = refl;
    no_outbox = refl;
  })

  session_commit-Working : (w : World) → Working t w → Working t (session_commit sys w).1
  session_commit-Working w h =
      let v : World = arrived sys w in
      let hv : Working t v = arrived-Working w h in
      elim (Option-cases (sys.statement_fault w.statements)) [
        | inr (e, fault) ↦ rw (session_commit-fault sys w e fault) (closed-Working v hv)
        | inl fault ↦
            let same : sys.flush [] [] (seen v) ≡ sys.flush v.new_payments v.new_outbox (seen v) =
              cc (hv.no_payments, hv.no_outbox) in
            subst (λ (q : Result (Unit {0}) × World). Working t q.1)
              (sym (session_commit-flush sys w fault))
              (flushed-Working v (sys.flush v.new_payments v.new_outbox (seen v)) hv
                (sym same ∙ lawful.flush_nothing (seen v)))
      ]

  pub commit-Working : (w : World) → Working t w → Working t (commit sys w).1
  unfolding commit
  commit-Working w h =
      rw (catch-raise (session_commit sys) (translated sys) w) (session_commit-Working w h)
