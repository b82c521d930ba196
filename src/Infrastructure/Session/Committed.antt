-- ===== src/Infrastructure/Session/Committed.antt =====
-- app/infrastructure/db/uow.py: what a commit that returns has stored.
use secunda_test.Base.{
  ℕ, ◌≡◌, refl, sym, ap, ◌∙◌, none, [], ◌∷◌, Result, ok, err, Option-cases, Result-cases, inl, inr,
}
use mathlib.Core.Path.{subst}
use secunda_test.Exec.{catch, catch-raise}
use secunda_test.Infrastructure.Models.{PaymentModel, OutboxMessageModel, Tables}
use secunda_test.Infrastructure.Platform.{System, World}
use secunda_test.Infrastructure.Platform.Laws.{IsLawful, Insertable, inserted}
use secunda_test.Infrastructure.Session.{arrived, session_commit, commit, translated, seen, flushed}
use secunda_test.Infrastructure.Session.Steady.{
  session_commit-fault, session_commit-flush, seen_clean,
}

pub commit_ok :
    (sys : System) (w : World) {x : Unit {0}}
    → (commit sys w).0 ≡ ok x
    → (session_commit sys w).0 ≡ ok x
unfolding commit
commit_ok sys w {x} h = elim (Result-cases (session_commit sys w).0) [
  | inl (y, e) ↦ e
  | inr (y, e) ↦ cc (rw (e, catch) at h)
]

module _ {sys : System} (lawful : IsLawful sys) (row : PaymentModel)
    (message : OutboxMessageModel) where
  -- The tables are those that the session last saw, with the row and the message added.
  pub record HasInserted (before : Tables) (after : Tables) : Type 0 where
    pub at : ℕ
    pub tables : after ≡ inserted sys row message at before
    pub was_free : Insertable sys row message before

  flushed-HasInserted :
      (v : World) (u : Tables) (r : Result Tables)
      → ((u' : Tables)
          → r ≡ ok u'
          → Insertable sys row message u × ((at : ℕ) × (u' ≡ inserted sys row message at u)))
      → {x : Unit {0}} → (flushed r v).0 ≡ ok x
      → HasInserted u (flushed r v).1.tables
  unfolding flushed
  flushed-HasInserted v u (err e) ins h = cc
  flushed-HasInserted v u (ok u') ins h =
      let (free, made) = ins u' refl in record { at = made.0; tables = made.1; was_free = free }

  session_commit-HasInserted :
      (w : World) {x : Unit {0}}
      → w.dirty ≡ none
      → w.new_payments ≡ row ∷ []
      → w.new_outbox ≡ message ∷ []
      → (session_commit sys w).0 ≡ ok x
      → HasInserted (arrived sys w).tables (session_commit sys w).1.tables
  session_commit-HasInserted w {x} clean new_p new_o h =
      let v : World = arrived sys w in
      let p_v : v.new_payments ≡ row ∷ [] = unfold arrived in new_p in
      let o_v : v.new_outbox ≡ message ∷ [] = unfold arrived in new_o in
      let c_v : v.dirty ≡ none = unfold arrived in clean in
      let seen_v : seen v ≡ v.tables = seen_clean v c_v in
      elim (Option-cases (sys.statement_fault w.statements)) [
        | inr (e, fault) ↦ cc (rw (session_commit-fault sys w e fault) at h)
        | inl fault ↦
            let r : Result Tables = sys.flush v.new_payments v.new_outbox (seen v) in
            let same : sys.flush (row ∷ []) (message ∷ []) v.tables ≡ r = cc (p_v, o_v, seen_v) in
            let step = session_commit-flush sys w fault in
            subst (λ (q : Result (Unit {0}) × World). HasInserted v.tables q.1.tables) (sym step)
              (flushed-HasInserted v v.tables r
                (λ u' e. lawful.flush_inserts row message v.tables u' (same ∙ e))
                (ap (λ (q : Result (Unit {0}) × World). q.0) (sym step) ∙ h))
      ]

  pub commit-HasInserted :
      (w : World) {x : Unit {0}}
      → w.dirty ≡ none
      → w.new_payments ≡ row ∷ []
      → w.new_outbox ≡ message ∷ []
      → (commit sys w).0 ≡ ok x
      → HasInserted (arrived sys w).tables (commit sys w).1.tables
  unfolding commit
  commit-HasInserted w clean new_p new_o h =
      rw (catch-raise (session_commit sys) (translated sys) w)
        (session_commit-HasInserted w clean new_p new_o (commit_ok sys w h))

  flushed-ok : (v : World) (r : Result Tables) {u : Tables} → r ≡ ok u → (flushed r v).0 ≡ ok tt
  unfolding flushed
  flushed-ok v r e = rw e

  -- A commit whose statement arrives returns, if the constraints allow what the session has added.
  pub commit-Insertable :
      (w : World)
      → w.dirty ≡ none
      → w.new_payments ≡ row ∷ []
      → w.new_outbox ≡ message ∷ []
      → sys.statement_fault w.statements ≡ none
      → Insertable sys row message (arrived sys w).tables
      → (commit sys w).0 ≡ ok tt
  unfolding commit
  commit-Insertable w clean new_p new_o fault free =
      let v : World = arrived sys w in
      let p_v : v.new_payments ≡ row ∷ [] = unfold arrived in new_p in
      let o_v : v.new_outbox ≡ message ∷ [] = unfold arrived in new_o in
      let c_v : v.dirty ≡ none = unfold arrived in clean in
      let seen_v : seen v ≡ v.tables = seen_clean v c_v in
      let r : Result Tables = sys.flush v.new_payments v.new_outbox (seen v) in
      let same : r ≡ sys.flush (row ∷ []) (message ∷ []) v.tables = cc (p_v, o_v, seen_v) in
      let (at, made) = lawful.flush_ok row message v.tables free in
      let done : (session_commit sys w).0 ≡ ok tt =
        ap (λ (q : Result (Unit {0}) × World). q.0) (session_commit-flush sys w fault)
        ∙ flushed-ok v r (same ∙ made) in
      rw (done, catch)
