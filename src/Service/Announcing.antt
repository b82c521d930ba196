-- ===== src/Service/Announcing.antt =====
-- app/application/payment/use_cases/process_payment.py: what is announced is what is stored.
use mathlib.Core.Path.{subst}
use secunda_test.Base.{
  ◌≡◌, sym, ap, ◌∙◌, Bool, true, false, not, ◌==◌, Option, none, some, Text, ok, count,
}
use secunda_test.Exec.{Exec, Returns, continue, continue-Returns, pure, ◌>>=◌}
use secunda_test.Py.Uuid.{Uuid}
use secunda_test.Py.Datetime.{Instant}
use secunda_test.Py.Json.{Fields}
use secunda_test.Domain.Enums.{is_pending}
use secunda_test.Domain.Payment.{Payment}
use secunda_test.Domain.Payment.Invariant.{IsPayment}
use secunda_test.Application.Interfaces.{PaymentGateway, WebhookSender}
use secunda_test.Application.ProcessPayment.{charge, marked, after_update, current_or}
use secunda_test.Infrastructure.Models.{PaymentModel, Tables, find_payment}
use secunda_test.Infrastructure.Mappers.{payment_from_model}
use secunda_test.Infrastructure.Invariant.{IsTables, Evolves}
use secunda_test.Infrastructure.Platform.{System, World, interpreter, utc_now}
use secunda_test.Infrastructure.Platform.Laws.{IsLawful}
use secunda_test.Infrastructure.Session.{unit_of_work, commit, arrived}
use secunda_test.Infrastructure.Session.Working.{Working, commit-Working, arrived-Working}
use secunda_test.Infrastructure.Session.Closing.{Stored, commit-Stored}
use secunda_test.Infrastructure.Repositories.{
  payment_repository, get, update_status, is_pending_row,
}
use secunda_test.Infrastructure.Repositories.Outcome.{update_status-Working}
use secunda_test.Infrastructure.Repositories.Updating.{settled_tables}
use secunda_test.Infrastructure.Repositories.Settling.{update_status-Updated}
use secunda_test.Service.Processing.{IsQuiet}
use secunda_test.Service.Standing.{Standing, marked-outcome}
use secunda_test.Service.Rows.{settled-Standing, unsettled, get-Standing}
use secunda_test.Service.Processing.{
  mark_and_write, the_charge, write_back, the_after_update, marked-IsPayment, clock-Working,
  quiet-Working,
}

module _ {sys : System} (lawful : IsLawful sys) (gateway : PaymentGateway World)
    (webhooks : WebhookSender World) (quiet_gateway : (p : Payment) → IsQuiet (gateway.charge p))
    (quiet_webhooks : (url : Text) (payload : Fields) → IsQuiet (webhooks.send url payload))
    (id : Uuid) (p : Payment) (r : PaymentModel) (t : Tables)
    (there : find_payment id t.payments ≡ some r) (reads : payment_from_model r ≡ ok p)
    (same_id : p.id ≡ id) where
  -- The announced payment, when the charge returns.
  abbrev Announced : Payment → World → Type 0
  Announced final w = Standing id final w.tables

  after_update-Standing :
      (q : Payment) (t' : Tables) (b : Bool) (w : World)
      → q ≡ record p { status = q.status; processed_at = q.processed_at }
      → is_pending q.status ≡ false
      → IsPayment q
      → IsTables t'
      → Evolves t t'
      → b ≡ not (count (is_pending_row q.id) t'.payments == 0)
      → Stored (settled_tables q t') w
      → Working t w
      → Returns Announced
          (the_after_update lawful gateway webhooks quiet_gateway quiet_webhooks t q b w)
  unfolding after_update payment_repository current_or
  after_update-Standing q t' true w only final valid ok_t' later changed stored h =
      let qid : q.id ≡ id = ap (λ (x : Payment). x.id) only ∙ same_id in
      subst (Standing id q) (sym stored.tables)
        (settled-Standing id p q r t there reads only final valid qid t' ok_t' later changed)
  after_update-Standing q t' false w only final valid ok_t' later changed stored h =
      let qid : q.id ≡ id = ap (λ (x : Payment). x.id) only ∙ same_id in
      let (s, s_there, f) =
        unsettled id p q r t there reads only final valid qid t' later changed in
      let w_there : find_payment id w.tables.payments ≡ some s = rw stored.tables s_there in
      let next : Option Payment → Exec World Payment = λ o. pure (current_or q o) in
      subst (λ (k : Uuid). Returns Announced (continue (get sys k w).0 next (get sys k w).1))
        (sym qid)
        (continue-Returns Announced (get sys id w).0 next (get sys id w).1 (λ o e.
          let (p', same, standing) = get-Standing lawful id t w s o h stored.clean w_there f e in
          rw (same, current_or) standing))

  write_back-Standing :
      (q : Payment) (w : World)
      → q ≡ record p { status = q.status; processed_at = q.processed_at }
      → is_pending q.status ≡ false
      → IsPayment q
      → w.dirty ≡ none
      → Working t w
      → Returns Announced (write_back lawful gateway webhooks quiet_gateway quiet_webhooks t q w)
  unfolding payment_repository unit_of_work
  write_back-Standing q w only final valid clean h =
      let hv : Working t (arrived sys w) = arrived-Working lawful t w h in
      let u : World = (update_status sys q w).1 in
      let hu : Working t u = update_status-Working lawful t q w valid h in
      continue-Returns Announced (update_status sys q w).0 _ u (λ applied e.
        let up = update_status-Updated lawful q w valid clean e in
        continue-Returns Announced (commit sys u).0 _ (commit sys u).1 (λ x e'.
          after_update-Standing q (arrived sys w).tables applied (commit sys u).1 only final valid
            hv.valid hv.evolved up.changed
            (commit-Stored lawful (settled_tables q (arrived sys w).tables) u up.uncommitted
              hu.no_payments hu.no_outbox e')
            (commit-Working lawful t u hu)))

  abbrev the_mark_and_write : Bool → Instant → Exec World Payment
  the_mark_and_write = mark_and_write lawful gateway webhooks quiet_gateway quiet_webhooks t p

  mark_and_write-Standing :
      (b : Bool) (now : Instant) (w : World)
      → IsPayment p
      → w.dirty ≡ none
      → Working t w
      → Returns Announced (the_mark_and_write b now w)
  mark_and_write-Standing b now w valid clean h =
      continue-Returns Announced (marked b now p).0
        (λ u. write_back lawful gateway webhooks quiet_gateway quiet_webhooks t (marked b now p).1)
        w
        (λ u e.
          let (only, final) = marked-outcome b now p e in
          write_back-Standing (marked b now p).1 w only final (marked-IsPayment b now p valid) clean
            h)

  pub charge-Standing :
      (w : World)
      → IsPayment p
      → w.dirty ≡ none
      → Working t w
      → Returns Announced (the_charge lawful gateway webhooks quiet_gateway quiet_webhooks t p w)
  unfolding charge interpreter
  charge-Standing w valid clean h =
      let v1 : World = (gateway.charge p w).1 in
      let h1 : Working t v1 = quiet-Working (gateway.charge p) t w (quiet_gateway p) h in
      let c1 : v1.dirty ≡ none = (quiet_gateway p w).dirty ∙ clean in
      let v2 : World = (utc_now sys v1).1 in
      let h2 : Working t v2 =
        clock-Working lawful gateway webhooks quiet_gateway quiet_webhooks t v1 h1 in
      let c2 : v2.dirty ≡ none = unfold utc_now in c1 in
      continue-Returns Announced (gateway.charge p w).0 (λ b. utc_now sys >>= the_mark_and_write b)
        v1
        (λ b e1.
          continue-Returns Announced (utc_now sys v1).0 (the_mark_and_write b) v2
            (λ now e2. mark_and_write-Standing b now v2 valid c2 h2))
