-- ===== src/Service/Settled.antt =====
-- Between the use cases: no transaction is open, and the tables satisfy their invariant.
use secunda_test.Base.{Exc, refl, ◌∙◌, arith}
use secunda_test.Exec.{Exec, catch, ◌>>=◌, continue-keeps, catch-keeps}
use secunda_test.Infrastructure.Models.{Tables}
use secunda_test.Infrastructure.Invariant.{IsTables, Evolves}
use secunda_test.Infrastructure.Platform.{System, World, Publication, publish}
use secunda_test.Infrastructure.Platform.Laws.{IsLawful}
use secunda_test.Infrastructure.Session.{rollback, arrived}
use secunda_test.Infrastructure.Session.Working.{Working, arrived-Working}
use secunda_test.Service.NewPayment.{SameSession}
use secunda_test.Service.Creating.{IsIdle}
use secunda_test.Service.Processing.{IsQuiet, quiet-Working, idle-Working}

-- The tables have evolved from `t`.
pub record Settled (t : Tables) (w : World) : Type 0 where
  pub working : Working t w
  pub idle : IsIdle w

pub same_session : (w : World) → SameSession w w
same_session w = record {
  tables = refl;
  dirty = refl;
  new_payments = refl;
  new_outbox = refl;
  statements = refl;
}

pub SameSession-trans : (u v w : World) → SameSession u v → SameSession v w → SameSession u w
SameSession-trans u v w h k = record {
  tables = k.tables ∙ h.tables;
  dirty = k.dirty ∙ h.dirty;
  new_payments = k.new_payments ∙ h.new_payments;
  new_outbox = k.new_outbox ∙ h.new_outbox;
  statements = k.statements ∙ h.statements;
}

pub bind-IsQuiet :
    {A B : Type 0} (m : Exec World A) (f : A → Exec World B)
    → IsQuiet m
    → ((a : A) → IsQuiet (f a))
    → IsQuiet (m >>= f)
bind-IsQuiet m f first next w =
    continue-keeps (SameSession w) (m w).0 f (m w).1 (first w)
      (λ a. SameSession-trans w (m w).1 _ (first w) (next a (m w).1))

pub catch-IsQuiet :
    {A : Type 0} (m : Exec World A) (handler : Exc → Exec World A)
    → IsQuiet m
    → ((e : Exc) → IsQuiet (handler e))
    → IsQuiet (catch m handler)
catch-IsQuiet m handler first next w =
    catch-keeps (SameSession w) m handler w (first w)
      (λ e. SameSession-trans w (m w).1 _ (first w) (next e (m w).1))

-- Publishing leaves the database alone.
pub publish-IsQuiet : (sys : System) (m : Publication) → IsQuiet (publish sys m)
unfolding publish
publish-IsQuiet sys m w = ground arith

pub idle-Settled : (w : World) → IsIdle w → IsTables w.tables → Settled w.tables w
idle-Settled w idle valid = record { working = idle-Working w idle valid; idle = idle }

pub quiet-Settled :
    {A : Type 0} (t : Tables) (m : Exec World A) (w : World)
    → IsQuiet m
    → Settled t w
    → Settled t (m w).1
quiet-Settled t m w quiet h =
    let same = quiet w in
    record {
      working = quiet-Working m t w quiet h.working;
      idle = record {
        clean = same.dirty ∙ h.idle.clean;
        no_payments = same.new_payments ∙ h.idle.no_payments;
        no_outbox = same.new_outbox ∙ h.idle.no_outbox;
      };
    }

pub rollback-Settled :
    (t : Tables) (w : World) → IsTables w.tables → Evolves t w.tables → Settled t (rollback w).1
unfolding rollback
rollback-Settled t w valid evolved = record {
  working = record {
    valid = valid;
    evolved = evolved;
    open_valid = λ u e. cc;
    no_payments = refl;
    no_outbox = refl;
  };
  idle = record { clean = refl; no_payments = refl; no_outbox = refl };
}

module _ {sys : System} (lawful : IsLawful sys) (t : Tables) where
  -- A statement that other sessions precede.
  pub arrived-Settled : (w : World) → Settled t w → Settled t (arrived sys w)
  arrived-Settled w h = record {
    working = arrived-Working lawful t w h.working;
    idle =
        unfold arrived in
        record {
          clean = h.idle.clean;
          no_payments = h.idle.no_payments;
          no_outbox = h.idle.no_outbox;
        };
  }
