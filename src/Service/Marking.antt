-- ===== src/Service/Marking.antt =====
-- app/infrastructure/broker/outbox_relay.py: no message is marked that was not sent, however a pass
-- of the relay ends.
use secunda_test.Base.{
  ◌≡◌, refl, sym, inl, inr, ◌+◌, ℕ, Bool, true, Bool-cases, Option-cases, none, some, List, [], ◌∷◌,
  ◌++◌, All, All-map, Member, Exc, if◌then◌else◌, is_exception, Result, ok, err,
}
use mathlib.Core.Path.{subst}
use secunda_test.Exec.{Exec, pure, ◌>>=◌, continue, catch, Returns}
use secunda_test.Infrastructure.Models.{OutboxMessageModel, is_published}
use secunda_test.Infrastructure.Platform.{System, World, Publication}
use secunda_test.Infrastructure.Relay.Batch.{publish_event-fault, relay_one-sent}
use secunda_test.Infrastructure.Relay.{event_message, on_publish_error, relay_one, relay_all}

-- The row is one of the messages but for the columns that the relay writes, and if it is marked as
-- published, its message is among those that were sent.
abbrev pub Sent : List OutboxMessageModel → List Publication → OutboxMessageModel → Type 0
Sent ms sent n =
    (is_published n ≡ true → Member (event_message n.id n.event_type n.payload) sent)
    × ((m : OutboxMessageModel) × Member m ms
        × (n ≡ record m {
          published_at = n.published_at;
          attempts = n.attempts;
          last_error = n.last_error;
        }))

Member-last : {A : Type 0} (xs : List A) (x : A) → Member x (xs ++ x ∷ [])
Member-last [] x = inl refl
Member-last (y ∷ xs) x = inr (Member-last xs x)

-- What was sent stays sent.
abbrev pub Keeps : List Publication → List Publication → Type 0
Keeps ps qs = (p : Publication) → Member p ps → Member p qs

Member-append : {A : Type 0} (xs ys : List A) (x : A) → Member x xs → Member x (xs ++ ys)
Member-append [] ys x m = absurd m
Member-append (z ∷ xs) ys x (inl e) = inl e
Member-append (z ∷ xs) ys x (inr m) = inr (Member-append xs ys x m)

-- What the pass has done so far, and does with one message more.
module _ {A : Type 0} (P : List Publication → A → Type 0) (ps : List Publication) where
  abbrev pub Sends : Result A × World → Type 0
  Sends q = Returns (λ a v. P v.published a) q × Keeps ps q.1.published

abbrev pub AllSent :
    List OutboxMessageModel → List Publication → ℕ × List OutboxMessageModel → Type 0
AllSent ms ps r = All (Sent ms ps) r.1

abbrev OneSent : OutboxMessageModel → List Publication → Bool × OutboxMessageModel → Type 0
OneSent m ps r = Sent (m ∷ []) ps r.1

-- A row stays what it is as more is sent, and among more messages.
Sent-first :
    (m n : OutboxMessageModel) (ms : List OutboxMessageModel) (ps qs : List Publication)
    → Keeps ps qs
    → Sent (m ∷ []) ps n
    → Sent (m ∷ ms) qs n
Sent-first m n ms ps qs keeps (marked, (k, inl e, same)) =
    (λ h. keeps (event_message n.id n.event_type n.payload) (marked h), (k, inl e, same))
Sent-first m n ms ps qs keeps (marked, (k, inr none_left, same)) = absurd none_left

Sent-rest :
    (m n : OutboxMessageModel) (ms : List OutboxMessageModel) (ps : List Publication)
    → Sent ms ps n
    → Sent (m ∷ ms) ps n
Sent-rest m n ms ps (marked, (k, member, same)) = (marked, (k, inr member, same))

abbrev counted :
    Bool × OutboxMessageModel → ℕ × List OutboxMessageModel → ℕ × List OutboxMessageModel
counted r rest = ((if r.0 then rest.0 + 1 else rest.0), r.1 ∷ rest.1)

module _ (m : OutboxMessageModel) (ms : List OutboxMessageModel) (ps : List Publication) where
  with_rest :
      (r : Bool × OutboxMessageModel) (v : World) (q : Result (ℕ × List OutboxMessageModel) × World)
      → OneSent m v.published r
      → Keeps ps v.published
      → Sends (AllSent ms) v.published q
      → Sends (AllSent (m ∷ ms)) ps (continue q.0 (λ rest. pure (counted r rest)) q.1)
  with_rest r v (err e, u) one kept rest = (tt, λ p k. rest.1 p (kept p k))
  with_rest r v (ok x, u) one kept rest = (
    (
      Sent-first m r.1 ms v.published u.published rest.1 one,
      All-map _ _ (λ n h. Sent-rest m n ms u.published h) x.1 rest.0,
    ),
    λ p k. rest.1 p (kept p k),
  )

  with_one :
      (q : Result (Bool × OutboxMessageModel) × World)
      (all : Exec World (ℕ × List OutboxMessageModel))
      → Sends (OneSent m) ps q
      → ((v : World) → Sends (AllSent ms) v.published (all v))
      → Sends
          (AllSent (m ∷ ms))
          ps
          (continue q.0 (λ r. all >>= (λ rest. pure (counted r rest))) q.1)
  with_one (err e, v) all one rest = (tt, one.1)
  with_one (ok r, v) all one rest = with_rest r v (all v) one.0 one.1 (rest v)

module _ (sys : System) where
  relay_one-fault :
      (m : OutboxMessageModel) (w : World) (e : Exc)
      → sys.publish_fault w.publishes ≡ some e
      → relay_one sys m w ≡ on_publish_error sys m e (record w { publishes = w.publishes + 1 })
  unfolding relay_one
  relay_one-fault m w e h =
      rw (publish_event-fault sys m w e h, catch, publish_event-fault sys m w e h) refl

  on_publish_error-Sent :
      (m : OutboxMessageModel) (e : Exc) (ps : List Publication) (w : World)
      → m.published_at ≡ none
      → Keeps ps w.published
      → Sends (OneSent m) ps (on_publish_error sys m e w)
  unfolding on_publish_error
  on_publish_error-Sent m e ps w h kept = elim (Bool-cases (is_exception e)) [
    | inl c ↦ rw c ((λ marked. cc (h, marked), (m, inl refl, refl)), kept)
    | inr c ↦ rw c (tt, kept)
  ]

  relay_one-Sent :
      (m : OutboxMessageModel) (w : World)
      → m.published_at ≡ none
      → Sends (OneSent m) w.published (relay_one sys m w)
  relay_one-Sent m w h = elim (Option-cases (sys.publish_fault w.publishes)) [
    | inl e ↦
        let message = event_message m.id m.event_type m.payload in
        subst (Sends (OneSent m) w.published) (sym (relay_one-sent sys m w e)) (
          (λ marked. Member-last w.published message, (m, inl refl, refl)),
          λ p. Member-append w.published (message ∷ []) p,
        )
    | inr (x, e) ↦
        subst (Sends (OneSent m) w.published) (sym (relay_one-fault m w x e))
          (on_publish_error-Sent m x w.published _ h (λ p q. q))
  ]

  pub relay_all-Sent :
      (ms : List OutboxMessageModel) (w : World)
      → All (λ m. m.published_at ≡ none) ms
      → Sends (AllSent ms) w.published (relay_all sys ms w)
  unfolding relay_all
  relay_all-Sent [] w h = (tt, λ p q. q)
  relay_all-Sent (m ∷ ms) w h =
      with_one m ms w.published (relay_one sys m w) (relay_all sys ms) (relay_one-Sent m w h.0)
        (λ v. relay_all-Sent ms v h.1)
