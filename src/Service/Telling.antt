-- ===== src/Service/Telling.antt =====
-- app/application/payment/use_cases/process_payment.py: a processing that returns has told the outcome
-- that is stored.
use mathlib.Core.Path.{subst}
use secunda_test.Base.{
  ◌≡◌, refl, sym, ap, ◌∙◌, true, false, Bool-cases, none, some, Text, Result, ok, err, inl, inr,
  arith,
}
use secunda_test.Exec.{Returns, continue-Returns, Returns-ok}
use secunda_test.Py.Uuid.{Uuid}
use secunda_test.Py.Json.{Fields}
use secunda_test.Domain.Enums.{is_pending, is_final}
use secunda_test.Domain.Payment.{Payment, is_processed}
use secunda_test.Domain.Payment.Invariant.{IsPayment}
use secunda_test.Application.Interfaces.{PaymentGateway, WebhookSender}
use secunda_test.Application.Events.{webhook_payload}
use secunda_test.Application.GetPayment.{found}
use secunda_test.Application.ProcessPayment.{process_payment}
use secunda_test.Infrastructure.Models.{PaymentModel, Tables, find_payment}
use secunda_test.Infrastructure.Mappers.{payment_from_model}
use secunda_test.Infrastructure.Invariant.{IsTables, id-find_payment}
use secunda_test.Infrastructure.Platform.{System, World}
use secunda_test.Infrastructure.Platform.Laws.{IsLawful}
use secunda_test.Infrastructure.Session.{arrived}
use secunda_test.Infrastructure.Session.Working.{Working}
use secunda_test.Infrastructure.Repositories.{payment_repository, get}
use secunda_test.Infrastructure.Repositories.Outcome.{get-Working, get-IsPayment}
use secunda_test.Infrastructure.Repositories.Reading.{get-world}
use secunda_test.Infrastructure.Repositories.Settling.{status-reads, id-reads}
use secunda_test.Service.Creating.{IsIdle}
use secunda_test.Service.Processing.{process_use_case, IsQuiet}
use secunda_test.Service.Standing.{Standing}
use secunda_test.Service.Rows.{get-there, rebased}
use secunda_test.Service.Processing.{settle_first, found_some, idle-Working}
use secunda_test.Service.Announcing.{charge-Standing}

processed_final : (p : Payment) → is_processed p ≡ true → is_pending p.status ≡ false
unfolding is_processed is_final
processed_final p h = ground arith

module _ {sys : System} (lawful : IsLawful sys) (gateway : PaymentGateway World)
    (webhooks : WebhookSender World) (quiet_gateway : (p : Payment) → IsQuiet (gateway.charge p))
    (quiet_webhooks : (url : Text) (payload : Fields) → IsQuiet (webhooks.send url payload))
    (id : Uuid) where
  -- The webhook that has been sent is that of the payment that stands in the tables.
  abbrev Told : Unit {0} → World → Type 0
  Told u s =
      (final : Payment) × (before : World) × (webhooks.send final.webhook_url.value
          (webhook_payload final) before
        ≡ (ok u, s))
      × Standing id final s.tables

  settle_first-Standing :
      (t : Tables) (w : World) (p : Payment) (r : PaymentModel)
      → find_payment id w.tables.payments ≡ some r
      → payment_from_model r ≡ ok p
      → t ≡ w.tables
      → IsPayment p
      → w.dirty ≡ none
      → Working t w
      → Returns
          (λ final s. Standing id final s.tables)
          (settle_first lawful gateway webhooks quiet_gateway quiet_webhooks t p w)
  settle_first-Standing t w p r there reads same valid clean h =
      elim (Bool-cases (is_processed p)) [
        | inl e ↦ rw e (record {
          row = r;
          there = there;
          reads = reads;
          final = rw (← status-reads r p reads) (processed_final p e);
        })
        | inr e ↦ rw e (
            charge-Standing lawful gateway webhooks quiet_gateway quiet_webhooks id p r t
              (rw same there) reads
              (id-reads r p reads ∙ id-find_payment id w.tables.payments there) w valid clean h)
      ]

  sent-Told :
      (final : Payment) (v : World) (q : Result (Unit {0}) × World)
      → webhooks.send final.webhook_url.value (webhook_payload final) v ≡ q
      → Standing id final q.1.tables
      → Returns Told q
  sent-Told final v (ok u, s) e standing = (final, v, e, standing)
  sent-Told final v (err x, s) e standing = tt

  process-Told :
      (w : World)
      → IsIdle w
      → IsTables w.tables
      → Returns Told (process_use_case sys gateway webhooks id w)
  unfolding process_use_case process_payment payment_repository
  process-Told w idle valid =
      let start : Working w.tables w = idle-Working w idle valid in
      let v : World = (get sys id w).1 in
      let world : v ≡ arrived sys w = get-world sys id w in
      let t : Tables = v.tables in
      let clean : v.dirty ≡ none =
        ap (λ (x : World). x.dirty) world ∙ (unfold arrived in idle.clean) in
      let hv : Working t v = rebased v (get-Working lawful w.tables id w start) clean in
      continue-Returns Told (get sys id w).0 _ v (λ stored e.
        continue-Returns Told (found id stored) _ v (λ p f.
          let e' : (get sys id w).0 ≡ ok (some p) = e ∙ ap ok (found_some id stored f) in
          let p_valid : IsPayment p = get-IsPayment lawful w.tables id w start e' in
          let (r, there, reads) = get-there lawful id w.tables w p start idle.clean e' in
          let there' : find_payment id t.payments ≡ some r = rw world there in
          let q = settle_first lawful gateway webhooks quiet_gateway quiet_webhooks t p v in
          let settled = settle_first-Standing t v p r there' reads refl p_valid clean hv in
          continue-Returns Told q.0
            (λ final. webhooks.send final.webhook_url.value (webhook_payload final)) q.1
            (λ final g.
              let standing = Returns-ok (λ final s. Standing id final s.tables) q g settled in
              sent-Told final q.1
                (webhooks.send final.webhook_url.value (webhook_payload final) q.1) refl
                (subst (Standing id final)
                  (sym (quiet_webhooks final.webhook_url.value (webhook_payload final) q.1).tables)
                  standing))))

-- Under a lawful system, with a gateway and a sender of webhooks that leave the database alone, a
-- processing from an idle session that returns has sent, as its last step, the webhook of a payment
-- that is settled and that the row with the identifier stands for in the committed tables, whether
-- it was processed before, has been charged now, or was settled by another consumer meanwhile.
pub process_use_case-Told :
    (sys : System) (gateway : PaymentGateway World) (webhooks : WebhookSender World) (id : Uuid)
    (w : World) (lawful : IsLawful sys) (quiet_gateway : (p : Payment) → IsQuiet (gateway.charge p))
    (quiet_webhooks : (url : Text) (payload : Fields) → IsQuiet (webhooks.send url payload))
    → IsIdle w
    → IsTables w.tables
    → (process_use_case sys gateway webhooks id w).0 ≡ ok tt
    → (final : Payment) × (before : World) × (webhooks.send final.webhook_url.value
          (webhook_payload final)
          before
        ≡ (ok tt, (process_use_case sys gateway webhooks id w).1))
      × Standing id final (process_use_case sys gateway webhooks id w).1.tables
process_use_case-Told sys gateway webhooks id w lawful quiet_gateway quiet_webhooks idle valid h =
    Returns-ok (Told lawful gateway webhooks quiet_gateway quiet_webhooks id)
      (process_use_case sys gateway webhooks id w) h
      (process-Told lawful gateway webhooks quiet_gateway quiet_webhooks id w idle valid)
