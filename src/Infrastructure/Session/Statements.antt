-- ===== src/Infrastructure/Session/Statements.antt =====
-- app/infrastructure/db/session.py: a statement is answered, or its connection fails.
use secunda_test.Base.{◌≡◌, none, some, Exc, ok, err, arith}
use secunda_test.Infrastructure.Platform.{System, World}
use secunda_test.Infrastructure.Session.{arrived, statement}

module _ (sys : System) (w : World) where
  pub statement-ok :
      sys.statement_fault w.statements ≡ none → statement sys w ≡ (ok tt, arrived sys w)
  unfolding statement
  statement-ok h = ground arith

  pub statement-fault :
      (e : Exc)
      → sys.statement_fault w.statements ≡ some e
      → statement sys w ≡ (err e, arrived sys w)
  unfolding statement
  statement-fault e h = ground arith
