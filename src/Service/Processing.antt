-- ===== src/Service/Processing.antt =====
-- app/application/payment/use_cases/process_payment.py: the tables under the processing of a payment.
use mathlib.Core.Path.{subst}
use secunda_test.Base.{
  ◌≡◌, refl, sym, ap, ◌∙◌, Bool, true, false, not, Bool-cases, Option, none, some, Text, ok, inl,
  inr, if◌then◌else◌,
}
use secunda_test.Exec.{Exec, continue-keeps_ok, continue-keeps, pure, lift, ◌>>=◌, ◌>>◌}
use secunda_test.Py.Uuid.{Uuid}
use secunda_test.Py.Datetime.{Instant}
use secunda_test.Py.Json.{Fields, none_value}
use secunda_test.Domain.Enums.{succeeded, failed}
use secunda_test.Domain.Payment.{Payment, is_processed, mark_succeeded, mark_failed}
use secunda_test.Domain.Payment.Invariant.{IsPayment, transition_to-IsPayment}
use secunda_test.Application.Interfaces.{PaymentGateway, WebhookSender}
use secunda_test.Application.GetPayment.{found}
use secunda_test.Application.ProcessPayment.{process_payment, charge, marked, after_update}
use secunda_test.Application.Events.{webhook_payload}
use secunda_test.Infrastructure.Models.{Tables}
use secunda_test.Infrastructure.Invariant.{IsTables, Evolves, Evolves-refl}
use secunda_test.Infrastructure.Platform.{System, World, interpreter, utc_now}
use secunda_test.Infrastructure.Platform.Laws.{IsLawful}
use secunda_test.Infrastructure.Session.{unit_of_work, commit}
use secunda_test.Infrastructure.Session.Working.{Working, commit-Working}
use secunda_test.Infrastructure.Repositories.{payment_repository, get, update_status}
use secunda_test.Infrastructure.Repositories.Outcome.{
  get-Working, get-IsPayment, update_status-Working,
}
use secunda_test.Service.NewPayment.{SameSession}
use secunda_test.Service.Creating.{IsIdle}

-- The use case over the repositories of one session.
unfoldable pub process_use_case :
    System → PaymentGateway World → WebhookSender World → Uuid → Exec World (Unit {0})
process_use_case sys gateway webhooks =
    process_payment (payment_repository sys) (unit_of_work sys) gateway webhooks (interpreter sys)

-- A port that leaves the database alone.
abbrev pub IsQuiet : {A : Type 0} → Exec World A → Type 0
IsQuiet m = (w : World) → SameSession w (m w).1

pub quiet-Working :
    {A : Type 0} (m : Exec World A) (t : Tables) (w : World)
    → IsQuiet m
    → Working t w
    → Working t (m w).1
quiet-Working m t w quiet h =
    let same = quiet w in
    record {
      valid = subst IsTables (sym same.tables) h.valid;
      evolved = subst (Evolves t) (sym same.tables) h.evolved;
      open_valid = λ u e. h.open_valid u (sym same.dirty ∙ e);
      no_payments = same.new_payments ∙ h.no_payments;
      no_outbox = same.new_outbox ∙ h.no_outbox;
    }

pub marked-IsPayment :
    (b : Bool) (now : Instant) (p : Payment) → IsPayment p → IsPayment (marked b now p).1
unfolding marked mark_succeeded mark_failed
marked-IsPayment true now p h = transition_to-IsPayment succeeded none_value now p refl h
marked-IsPayment false now p h = transition_to-IsPayment failed none_value now p refl h

pub found_some : (id : Uuid) (o : Option Payment) {p : Payment} → found id o ≡ ok p → o ≡ some p
unfolding found
found_some id none h = cc
found_some id (some q) {p} h = cc h

pub idle-Working : (w : World) → IsIdle w → IsTables w.tables → Working w.tables w
idle-Working w idle valid = record {
  valid = valid;
  evolved = Evolves-refl w.tables;
  open_valid = λ u e. cc (idle.clean, e);
  no_payments = idle.no_payments;
  no_outbox = idle.no_outbox;
}

module _ {sys : System} (lawful : IsLawful sys) (gateway : PaymentGateway World)
    (webhooks : WebhookSender World) (quiet_gateway : (p : Payment) → IsQuiet (gateway.charge p))
    (quiet_webhooks : (url : Text) (payload : Fields) → IsQuiet (webhooks.send url payload))
    (t : Tables) where
  abbrev pub the_charge : Payment → Exec World Payment
  the_charge = charge (payment_repository sys) (unit_of_work sys) gateway webhooks (interpreter sys)

  abbrev pub the_after_update : Payment → Bool → Exec World Payment
  the_after_update =
      after_update (payment_repository sys) (unit_of_work sys) gateway webhooks (interpreter sys)

  after_update-Working :
      (q : Payment) (applied : Bool) (w : World)
      → Working t w
      → Working t (the_after_update q applied w).1
  unfolding after_update payment_repository
  after_update-Working q true w h = h
  after_update-Working q false w h =
      continue-keeps (Working t) (get sys q.id w).0 _ (get sys q.id w).1
        (get-Working lawful t q.id w h) (λ o. get-Working lawful t q.id w h)

  -- The UPDATE, the commit and what follows, of a payment that is marked.
  abbrev pub write_back : Payment → Exec World Payment
  write_back q = do
    applied ← (payment_repository sys).update_status q
    (unit_of_work sys).commit
    the_after_update q applied

  write_back-Working :
      (q : Payment) (w : World) → IsPayment q → Working t w → Working t (write_back q w).1
  unfolding payment_repository unit_of_work
  write_back-Working q w valid h =
      let hu : Working t (update_status sys q w).1 = update_status-Working lawful t q w valid h in
      let v : World = (update_status sys q w).1 in
      let hc : Working t (commit sys v).1 = commit-Working lawful t v hu in
      continue-keeps (Working t) (update_status sys q w).0 _ v hu (λ applied.
        continue-keeps (Working t) (commit sys v).0 _ (commit sys v).1 hc
          (λ u. after_update-Working q applied (commit sys v).1 hc))

  pub clock-Working : (w : World) → Working t w → Working t (utc_now sys w).1
  unfolding utc_now
  clock-Working w h = record {
    valid = h.valid;
    evolved = h.evolved;
    open_valid = h.open_valid;
    no_payments = h.no_payments;
    no_outbox = h.no_outbox;
  }

  abbrev pub mark_and_write : Payment → Bool → Instant → Exec World Payment
  mark_and_write p b now = do lift (marked b now p).0; write_back (marked b now p).1

  mark_and_write-Working :
      (p : Payment) (b : Bool) (now : Instant) (w : World)
      → IsPayment p
      → Working t w
      → Working t (mark_and_write p b now w).1
  mark_and_write-Working p b now w valid h =
      continue-keeps (Working t) (marked b now p).0 (λ u. write_back (marked b now p).1) w h
        (λ u. write_back-Working (marked b now p).1 w (marked-IsPayment b now p valid) h)

  charge-Working :
      (p : Payment) (w : World) → IsPayment p → Working t w → Working t (the_charge p w).1
  unfolding charge interpreter
  charge-Working p w valid h =
      let hg : Working t (gateway.charge p w).1 =
        quiet-Working (gateway.charge p) t w (quiet_gateway p) h in
      let v : World = (utc_now sys (gateway.charge p w).1).1 in
      let hv : Working t v = clock-Working (gateway.charge p w).1 hg in
      continue-keeps (Working t) (gateway.charge p w).0 _ (gateway.charge p w).1 hg (λ b.
        continue-keeps (Working t) (utc_now sys (gateway.charge p w).1).0 (mark_and_write p b) v hv
          (λ now. mark_and_write-Working p b now v valid hv))

  -- The payment that is announced: charged first, if it is not processed.
  abbrev pub settle_first : Payment → Exec World Payment
  settle_first p = if not (is_processed p) then the_charge p else pure p

  settle_first-Working :
      (p : Payment) (w : World) → IsPayment p → Working t w → Working t (settle_first p w).1
  settle_first-Working p w valid h = elim (Bool-cases (is_processed p)) [
    | inl e ↦ rw e h
    | inr e ↦ rw e (charge-Working p w valid h)
  ]

  pub process-Working :
      (id : Uuid) (w : World)
      → Working t w
      → Working t (process_use_case sys gateway webhooks id w).1
  unfolding process_use_case process_payment payment_repository
  process-Working id w h =
      let v : World = (get sys id w).1 in
      let hv : Working t v = get-Working lawful t id w h in
      continue-keeps_ok (Working t) (get sys id w).0 _ v hv (λ stored e.
        continue-keeps_ok (Working t) (found id stored) _ v hv (λ p f.
          let valid : IsPayment p =
            get-IsPayment lawful t id w h (e ∙ ap ok (found_some id stored f)) in
          let hs : Working t (settle_first p v).1 = settle_first-Working p v valid hv in
          continue-keeps (Working t) (settle_first p v).0 _ (settle_first p v).1 hs (λ final.
            quiet-Working (webhooks.send final.webhook_url.value (webhook_payload final)) t _
              (quiet_webhooks final.webhook_url.value (webhook_payload final)) hs)))

-- Under a lawful system, with a gateway and a sender of webhooks that leave the database alone, the
-- processing of a payment from an idle session over tables that satisfy the invariant leaves,
-- whatever it returns or raises and whatever other sessions commit meanwhile, tables that satisfy
-- the invariant and have evolved from those before: a final outcome is never overwritten.
pub process_use_case-keeps :
    (sys : System) (gateway : PaymentGateway World) (webhooks : WebhookSender World) (id : Uuid)
    (w : World)
    → IsLawful sys
    → ((p : Payment) → IsQuiet (gateway.charge p))
    → ((url : Text) (payload : Fields) → IsQuiet (webhooks.send url payload))
    → IsIdle w
    → IsTables w.tables
    → IsTables (process_use_case sys gateway webhooks id w).1.tables
      × Evolves w.tables (process_use_case sys gateway webhooks id w).1.tables
process_use_case-keeps sys gateway webhooks id w lawful quiet_gateway quiet_webhooks idle valid =
    let end =
      process-Working lawful gateway webhooks quiet_gateway quiet_webhooks w.tables id w
        (idle-Working w idle valid) in
    (end.valid, end.evolved)
