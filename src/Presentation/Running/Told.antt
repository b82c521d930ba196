-- ===== src/Presentation/Running/Told.antt =====
-- What a client has been told, under whatever happens after it.
use secunda_test.Base.{◌≡◌, refl, Result, ok, err, Text}
use secunda_test.Exec.{catch, raise, ◌>>◌}
use secunda_test.Py.Uuid.{Uuid}
use secunda_test.Py.Json.{Fields}
use secunda_test.Domain.Payment.{Payment}
use secunda_test.Application.Events.{webhook_payload}
use secunda_test.Infrastructure.Invariant.{IsTables}
use secunda_test.Infrastructure.Platform.{World}
use secunda_test.Infrastructure.Platform.Laws.{IsLawful}
use secunda_test.Infrastructure.Session.{rollback}
use secunda_test.Service.Creating.{IsIdle}
use secunda_test.Service.Processing.{process_use_case, IsQuiet}
use secunda_test.Service.Settled.{idle-Settled}
use secunda_test.Service.Standing.{Standing, Standing-Evolves}
use secunda_test.Service.Telling.{process_use_case-Told}
use secunda_test.Presentation.Consumer.{process_in_session}
use secunda_test.Presentation.Consumer.Keeping.{process_in_session-Settled}
use secunda_test.Presentation.Running.{Service, Reach}
use secunda_test.Presentation.Running.Keeping.{Reach-keeps}

session_ok :
    (q : Result (Unit {0}) × World)
    → (((catch (λ w. q) (λ e. do rollback; raise e)) >> rollback) q.1).0 ≡ ok tt
    → q.0 ≡ ok tt
unfolding rollback
session_ok (ok u, w) h = refl
session_ok (err e, w) h = cc

session_tables :
    (q : Result (Unit {0}) × World)
    → (((catch (λ w. q) (λ e. do rollback; raise e)) >> rollback) q.1).1.tables ≡ q.1.tables
unfolding rollback
session_tables (ok u, w) = refl
session_tables (err e, w) = refl

session_posts :
    (q : Result (Unit {0}) × World)
    → (((catch (λ w. q) (λ e. do rollback; raise e)) >> rollback) q.1).1.posts ≡ q.1.posts
unfolding rollback
session_posts (ok u, w) = refl
session_posts (err e, w) = refl

module _ (service : Service) (lawful : IsLawful service.system)
    (quiet_gateway : (p : Payment) → IsQuiet (service.gateway.charge p))
    (quiet_webhooks : (url : Text) (payload : Fields) → IsQuiet (service.webhooks.send url payload))
    (id : Uuid) (w : World) where
  abbrev pub session : Result (Unit {0}) × World
  session = process_in_session service.system service.retry service.gateway service.webhooks id w

  abbrev used : Result (Unit {0}) × World
  used = process_use_case service.system service.gateway service.webhooks id w

  used-ok : session.0 ≡ ok tt → used.0 ≡ ok tt
  unfolding process_in_session process_use_case
  used-ok h = session_ok used h

  tables-used : session.1.tables ≡ used.1.tables
  unfolding process_in_session process_use_case
  tables-used = session_tables used

  posts-used : session.1.posts ≡ used.1.posts
  unfolding process_in_session process_use_case
  posts-used = session_posts used

  -- Under a lawful system, with a gateway and a sender of webhooks that leave the database alone: if
  -- the consumer's session for a payment succeeds, it has sent the webhook of a settled payment, and
  -- after any further requests, messages and turns of the relay the row with the identifier still
  -- stands for that payment.
  pub session-told :
      (v : World)
      → IsIdle w
      → IsTables w.tables
      → session.0 ≡ ok tt
      → Reach service session.1 v
      → (final : Payment) × (before : World) × (after : World) × (service.webhooks.send
            final.webhook_url.value
            (webhook_payload final)
            before
          ≡ (ok tt, after))
        × (session.1.posts ≡ after.posts)
        × Standing id final v.tables
  session-told v idle valid h reach =
      let (final, before, sent, standing) =
        process_use_case-Told service.system service.gateway service.webhooks id w lawful
          quiet_gateway quiet_webhooks idle valid (used-ok h) in
      let settled =
        process_in_session-Settled lawful service.retry service.gateway service.webhooks
          quiet_gateway quiet_webhooks w.tables id w (idle-Settled w idle valid) in
      let (still_valid, later, still_idle) =
        Reach-keeps service lawful quiet_gateway quiet_webhooks session.1 v settled.idle
          settled.working.valid reach in
      let stood : Standing id final session.1.tables = rw tables-used standing in
      (
        final,
        before,
        used.1,
        sent,
        posts-used,
        Standing-Evolves id final session.1.tables v.tables later stood,
      )
