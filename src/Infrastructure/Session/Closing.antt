-- ===== src/Infrastructure/Session/Closing.antt =====
-- app/infrastructure/db/uow.py: the commit of an UPDATE.
use mathlib.Core.Path.{subst}
use secunda_test.Base.{◌≡◌, refl, sym, ◌∙◌, none, some, [], Result, ok, Option-cases, inl, inr}
use secunda_test.Exec.{catch-raise}
use secunda_test.Infrastructure.Models.{Tables}
use secunda_test.Infrastructure.Platform.{System, World}
use secunda_test.Infrastructure.Platform.Laws.{IsLawful}
use secunda_test.Infrastructure.Session.{arrived, session_commit, commit, translated, seen, flushed}
use secunda_test.Infrastructure.Session.Steady.{session_commit-fault, session_commit-flush}
use secunda_test.Infrastructure.Session.Committed.{commit_ok}

-- The tables `u` are committed and no UPDATE is open.
pub record Stored (u : Tables) (w : World) : Type 0 where
  pub tables : w.tables ≡ u
  pub clean : w.dirty ≡ none

flushed-Stored : (v : World) (u : Tables) (r : Result Tables) → r ≡ ok u → Stored u (flushed r v).1
unfolding flushed
flushed-Stored v u r e = rw e (record { tables = refl; clean = refl })

module _ {sys : System} (lawful : IsLawful sys) (u : Tables) where
  session_commit-Stored :
      (w : World) {x : Unit {0}}
      → w.dirty ≡ some u
      → w.new_payments ≡ []
      → w.new_outbox ≡ []
      → (session_commit sys w).0 ≡ ok x
      → Stored u (session_commit sys w).1
  session_commit-Stored w {x} update no_p no_o h =
      let v : World = arrived sys w in
      let p_v : v.new_payments ≡ [] = unfold arrived in no_p in
      let o_v : v.new_outbox ≡ [] = unfold arrived in no_o in
      let d_v : v.dirty ≡ some u = unfold arrived in update in
      let seen_v : seen v ≡ u = rw (seen, d_v) in
      elim (Option-cases (sys.statement_fault w.statements)) [
        | inr (e, fault) ↦ cc (rw (session_commit-fault sys w e fault) at h)
        | inl fault ↦
            let r : Result Tables = sys.flush v.new_payments v.new_outbox (seen v) in
            let same : r ≡ sys.flush [] [] u = cc (p_v, o_v, seen_v) in
            subst (λ (q : Result (Unit {0}) × World). Stored u q.1)
              (sym (session_commit-flush sys w fault))
              (flushed-Stored v u r (same ∙ lawful.flush_nothing u))
      ]

  -- A commit that returns has stored what the UPDATE has left.
  pub commit-Stored :
      (w : World) {x : Unit {0}}
      → w.dirty ≡ some u
      → w.new_payments ≡ []
      → w.new_outbox ≡ []
      → (commit sys w).0 ≡ ok x
      → Stored u (commit sys w).1
  unfolding commit
  commit-Stored w update no_p no_o h =
      rw (catch-raise (session_commit sys) (translated sys) w)
        (session_commit-Stored w update no_p no_o (commit_ok sys w h))
