-- ===== src/Infrastructure/Session.antt =====
-- app/infrastructure/db/session.py and app/infrastructure/db/uow.py: a session with `autoflush=False`,
-- whose transaction begins with its first statement.
pub mod Statements
pub mod Steady
pub mod Committed
pub mod Working
pub mod Closing
use secunda_test.Base.{
  ℕ, ◌+◌, Bool, true, false, ◌&&◌, ◌||◌, Option, none, some, List, [], ◌∷◌, ◌++◌, if◌then◌else◌,
  Text, lit, ◌==◌, Exc, integrity_error, duplicate_idempotency_key_error, Result, ok, err,
}
use secunda_test.Exec.{Exec, pure, raise, lift, catch, ◌>>=◌, ◌>>◌}
use secunda_test.Application.Interfaces.{UnitOfWork}
use secunda_test.Infrastructure.Models.{PaymentModel, OutboxMessageModel, Tables}
use secunda_test.Infrastructure.Platform.{System, World}

abbrev starts : Text → Text → Bool
starts [] t = true
starts (c ∷ s) [] = false
starts (c ∷ s) (d ∷ t) = c == d && starts s t

-- `s in t`
unfoldable pub occurs : Text → Text → Bool
occurs s [] = starts s []
occurs s (d ∷ t) = starts s (d ∷ t) || occurs s t

unfoldable pub idempotency_key_constraint : Text
idempotency_key_constraint = lit "uq_payments_idempotency_key"

-- The tables as the session sees them.
abbrev pub seen : World → Tables
seen w = elim w.dirty [ none ↦ w.tables | some t ↦ t ]

-- `self._session.add(row)`
unfoldable pub add_payment : PaymentModel → Exec World (Unit {0})
add_payment r w = (ok tt, record w { new_payments = w.new_payments ++ r ∷ [] })

unfoldable pub add_outbox : OutboxMessageModel → Exec World (Unit {0})
add_outbox m w = (ok tt, record w { new_outbox = w.new_outbox ++ m ∷ [] })

-- `session.rollback()`, and the end of `async with session_factory() as session`. A rollback whose
-- connection fails is not modelled: the server ends the transaction all the same.
unfoldable pub rollback : Exec World (Unit {0})
rollback w = (ok tt, record w { dirty = none; new_payments = []; new_outbox = [] })

-- The end of `session.commit()`, by how the flush went.
unfoldable pub flushed : Result Tables → Exec World (Unit {0})
flushed (ok t) w =
    (ok tt, record w { tables = t; dirty = none; new_payments = []; new_outbox = [] })
flushed (err e) w = (err e, record w { dirty = none })

module _ (sys : System) where
  -- The world as the next statement finds it: what others have committed is seen, unless an UPDATE
  -- of this session holds its rows locked.
  unfoldable pub arrived : World → World
  arrived w = record w {
    tables = elim w.dirty [ none ↦ sys.others w.statements w.tables | some t ↦ w.tables ];
    statements = w.statements + 1;
  }

  -- A statement reaches the server, or its connection fails.
  unfoldable pub statement : Exec World (Unit {0})
  unfolding arrived
  statement w = elim (sys.statement_fault w.statements) [
    | none ↦ (ok tt, arrived w)
    | some e ↦ (err e, arrived w)
  ]

  -- `session.commit()`: the added rows are flushed, and the transaction is committed; where that
  -- fails, it is rolled back.
  unfoldable pub session_commit : Exec World (Unit {0})
  session_commit = do
    catch statement (λ e w. (err e, record w { dirty = none }))
    λ w. flushed (sys.flush w.new_payments w.new_outbox (seen w)) w

  -- `except IntegrityError`
  unfoldable pub translated : Exc → Exc
  translated (integrity_error m) =
      if occurs idempotency_key_constraint m
      then duplicate_idempotency_key_error m
      else integrity_error m
  translated e = e

  -- `SqlAlchemyUnitOfWork.commit`
  unfoldable pub commit : Exec World (Unit {0})
  unfolding session_commit translated
  commit = catch session_commit (λ e. raise (translated e))

  unfoldable pub unit_of_work : UnitOfWork World
  unfolding commit rollback
  unit_of_work = record { commit = commit; rollback = rollback }
