-- ===== src/Service/Awake.antt =====
-- app/infrastructure/broker/outbox_relay.py: a pass of the relay makes no pause.
use secunda_test.Base.{◌≡◌, Bool-cases, inl, inr, List, [], ◌∷◌, Exc, is_exception, arith}
use secunda_test.Exec.{continue-keeps, catch-keeps, ◌>>◌}
use secunda_test.Infrastructure.Models.{OutboxMessageModel}
use secunda_test.Infrastructure.Platform.{System, World, publish, utc_now}
use secunda_test.Infrastructure.Relay.{
  publish_event, on_publish_error, mark_published, relay_one, relay_all,
}

-- No pause has been made since the world `w`.
module _ (sys : System) (w : World) where
  abbrev pub Awake : World → Type 0
  Awake v = v.sleeps ≡ w.sleeps

  publish_event-Awake :
      (m : OutboxMessageModel) (v : World)
      → Awake v
      → Awake (publish_event sys m.id m.event_type m.payload v).1
  unfolding publish_event publish
  publish_event-Awake m v h = ground (arith, h)

  mark_published-Awake :
      (m : OutboxMessageModel) (v : World) → Awake v → Awake (mark_published sys m v).1
  unfolding mark_published utc_now
  mark_published-Awake m v h = h

  on_publish_error-Awake :
      (m : OutboxMessageModel) (e : Exc) (v : World)
      → Awake v
      → Awake (on_publish_error sys m e v).1
  unfolding on_publish_error
  on_publish_error-Awake m e v h = elim (Bool-cases (is_exception e)) [
    | inl c ↦ rw c h
    | inr c ↦ rw c h
  ]

  relay_one-Awake : (m : OutboxMessageModel) (v : World) → Awake v → Awake (relay_one sys m v).1
  unfolding relay_one
  relay_one-Awake m v h =
      let sending = publish_event sys m.id m.event_type m.payload in
      let tried : Awake ((sending >> mark_published sys m) v).1 =
        continue-keeps Awake (sending v).0 (λ u. mark_published sys m) (sending v).1
          (publish_event-Awake m v h)
          (λ u. mark_published-Awake m (sending v).1 (publish_event-Awake m v h)) in
      catch-keeps Awake (sending >> mark_published sys m) (on_publish_error sys m) v tried
        (λ e. on_publish_error-Awake m e ((sending >> mark_published sys m) v).1 tried)

  pub relay_all-Awake :
      (ms : List OutboxMessageModel) (v : World) → Awake v → Awake (relay_all sys ms v).1
  unfolding relay_all
  relay_all-Awake [] v h = h
  relay_all-Awake (m ∷ ms) v h =
      let one = relay_one sys m v in
      let h1 = relay_one-Awake m v h in
      continue-keeps Awake one.0 _ one.1 h1 (λ x.
        let rest = relay_all sys ms one.1 in
        continue-keeps Awake rest.0 _ rest.1 (relay_all-Awake ms one.1 h1)
          (λ y. relay_all-Awake ms one.1 h1))
