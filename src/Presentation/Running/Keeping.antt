-- ===== src/Presentation/Running/Keeping.antt =====
-- The tables under any sequence of events.
use mathlib.Core.Path.{subst}
use secunda_test.Base.{
  arith, ℕ, ◌≡◌, refl, sym, Bool-cases, inl, inr, if◌then◌else◌, is_exception, Exc, Result, ok, err,
  Text,
}
use secunda_test.Exec.{
  Exec, catch, continue-lift, continue-keeps, catch-keeps, pure, raise, lift, ◌>>=◌, ◌>>◌,
}
use secunda_test.Py.Uuid.{Uuid}
use secunda_test.Py.Json.{Fields}
use secunda_test.Domain.Payment.{Payment}
use secunda_test.Application.GetPayment.{get_payment, found}
use secunda_test.Infrastructure.Models.{Tables}
use secunda_test.Infrastructure.Invariant.{IsTables, Evolves, Evolves-trans}
use secunda_test.Infrastructure.Platform.{World, sleep}
use secunda_test.Infrastructure.Platform.Laws.{IsLawful}
use secunda_test.Infrastructure.Session.{rollback}
use secunda_test.Infrastructure.Session.Working.{Working}
use secunda_test.Infrastructure.Relay.{publish_batch, pause, run_once}
use secunda_test.Infrastructure.Repositories.{payment_repository, get}
use secunda_test.Infrastructure.Repositories.Outcome.{get-Working}
use secunda_test.Service.{create_use_case, get_use_case}
use secunda_test.Service.Creating.{IsIdle}
use secunda_test.Service.Keeping.{create_use_case-keeps}
use secunda_test.Service.Processing.{IsQuiet}
use secunda_test.Service.Settled.{Settled, idle-Settled, quiet-Settled, rollback-Settled}
use secunda_test.Service.Relaying.{publish_batch-Settled}
use secunda_test.Presentation.Api.{
  CreatePaymentRequest, in_session, create_endpoint, get_endpoint, command_of,
  PaymentAcceptedResponse, PaymentResponse, accepted_from_domain, response_from_domain,
}
use secunda_test.Presentation.Consumer.Keeping.{handle-Settled}
use secunda_test.Presentation.Running.{
  Service, Step, created, shown, delivered, relayed, Reach, here, next,
}

module _ (service : Service) (lawful : IsLawful service.system)
    (quiet_gateway : (p : Payment) → IsQuiet (service.gateway.charge p))
    (quiet_webhooks : (url : Text) (payload : Fields) → IsQuiet (service.webhooks.send url payload))
    (t : Tables) where
  in_session_end :
      {A : Type 0} (q : Result A × World)
      → ((do a ← catch (λ w. q) (λ e. do rollback; raise e); rollback; pure a) q.1).1
        ≡ (rollback q.1).1
  unfolding rollback
  in_session_end (ok a, w) = refl
  in_session_end (err e, w) = refl

  in_session-world :
      {A : Type 0} (m : Exec World A) (w : World)
      → (in_session service.system service.request_hash m w).1 ≡ (rollback (m w).1).1
  unfolding in_session
  in_session-world m w = in_session_end (m w)

  create_endpoint-Settled :
      (body : CreatePaymentRequest) (key : Text) (w : World)
      → Settled t w
      → Settled t (create_endpoint service.system service.request_hash body key w).1
  unfolding create_endpoint
  create_endpoint-Settled body key w h =
      let command = command_of service.system service.request_hash body key in
      let m : Exec World PaymentAcceptedResponse =
        create_use_case service.system command
        >>= (λ result. pure (accepted_from_domain result.payment)) in
      let made = create_use_case service.system command w in
      let same : (m w).1 ≡ made.1 =
        continue-lift made.0 (λ result. ok (accepted_from_domain result.payment)) made.1 in
      let (valid, evolved) =
        create_use_case-keeps service.system command w lawful h.idle h.working.valid in
      subst (Settled t) (sym (in_session-world m w)) (
        rollback-Settled t (m w).1 (rw same valid)
          (rw same (Evolves-trans t w.tables made.1.tables h.working.evolved evolved)))

  get_use_case-Working :
      (id : Uuid) (w : World) → Working t w → Working t (get_use_case service.system id w).1
  unfolding get_use_case get_payment payment_repository
  get_use_case-Working id w h =
      let v : World = (get service.system id w).1 in
      let hv : Working t v = get-Working lawful t id w h in
      continue-keeps (Working t) (get service.system id w).0 (λ o. lift (found id o)) v hv (λ o. hv)

  get_endpoint-Settled :
      (id : Uuid) (w : World)
      → Settled t w
      → Settled t (get_endpoint service.system service.request_hash id w).1
  unfolding get_endpoint
  get_endpoint-Settled id w h =
      let m : Exec World PaymentResponse =
        get_use_case service.system id >>= (λ p. pure (response_from_domain p)) in
      let got = get_use_case service.system id w in
      let same : (m w).1 ≡ got.1 = continue-lift got.0 (λ p. ok (response_from_domain p)) got.1 in
      let hg : Working t got.1 = get_use_case-Working id w h.working in
      subst (Settled t) (sym (in_session-world m w))
        (rollback-Settled t (m w).1 (rw same hg.valid) (rw same hg.evolved))

  pause-IsQuiet : (n : ℕ) → IsQuiet (pause service.system service.outbox n)
  unfolding pause sleep
  pause-IsQuiet n w = ground arith

  abbrev recovered : Exc → Exec World ℕ
  recovered e = if is_exception e then pure 0 else raise e

  still : (e : Exc) (w : World) → Settled t w → Settled t (recovered e w).1
  still e w h = elim (Bool-cases (is_exception e)) [ inl c ↦ rw c h | inr c ↦ rw c h ]

  run_once-Settled :
      (w : World) → Settled t w → Settled t (run_once service.system service.outbox w).1
  unfolding run_once
  run_once-Settled w h =
      let hb = publish_batch-Settled lawful t service.outbox w h in
      let caught : Exec World ℕ = catch (publish_batch service.system service.outbox) recovered in
      let hc : Settled t (caught w).1 =
        catch-keeps (Settled t) (publish_batch service.system service.outbox) recovered w hb
          (λ e. still e (publish_batch service.system service.outbox w).1 hb) in
      continue-keeps (Settled t) (caught w).0 (pause service.system service.outbox) (caught w).1 hc
        (λ n.
          quiet-Settled t (pause service.system service.outbox n) (caught w).1 (pause-IsQuiet n) hc)

  Step-Settled : {u v : World} → Step service u v → Settled t u → Settled t v
  Step-Settled (created body key w) h = create_endpoint-Settled body key w h
  Step-Settled (shown id w) h = get_endpoint-Settled id w h
  Step-Settled (delivered payload message w) h =
      handle-Settled lawful service.retry service.gateway service.webhooks quiet_gateway
        quiet_webhooks t payload message w h
  Step-Settled (relayed w) h = run_once-Settled w h

  Reach-Settled : {w v : World} → Settled t w → Reach service w v → Settled t v
  Reach-Settled h here = h
  Reach-Settled h (next reach step) = Step-Settled step (Reach-Settled h reach)

-- Under a lawful system, with a gateway and a sender of webhooks that leave the database alone: after
-- any sequence of requests, messages and turns of the relay, whatever each of them returns or raises
-- and whatever other processes commit meanwhile, no transaction is left open, the tables satisfy
-- the invariant, and they have evolved from those at the start, so that no payment is lost and no
-- final outcome changes.
pub Reach-keeps :
    (service : Service) (lawful : IsLawful service.system)
    (quiet_gateway : (p : Payment) → IsQuiet (service.gateway.charge p))
    (quiet_webhooks : (url : Text) (payload : Fields) → IsQuiet (service.webhooks.send url payload))
    (w v : World)
    → IsIdle w
    → IsTables w.tables
    → Reach service w v
    → IsTables v.tables × Evolves w.tables v.tables × IsIdle v
Reach-keeps service lawful quiet_gateway quiet_webhooks w v idle valid reach =
    let end =
      Reach-Settled service lawful quiet_gateway quiet_webhooks w.tables (idle-Settled w idle valid)
        reach in
    (end.working.valid, end.working.evolved, end.idle)
