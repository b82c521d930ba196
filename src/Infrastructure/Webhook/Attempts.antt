-- ===== src/Infrastructure/Webhook/Attempts.antt =====
-- How many POSTs a delivery makes and how it ends, by what the receiver answers.
use secunda_test.Base.{
  ℕ, zero, suc, ◌+◌, ◌-◌, ◌*◌, ◌^◌, Bool, ◌≤◌, ◌<◌, ◌≡◌, true, false, Option, none, some, List, [],
  ◌∷◌, ◌++◌, if◌then◌else◌, Text, Exc, http_error, other_error, cancelled_error, retry_error,
  Result, ok, err, arith, Option-cases, Bool-cases, inl, inr, ap, ◌∙◌, refl,
}
use secunda_test.Exec.{Exec}
use secunda_test.Py.Json.{Fields}
use secunda_test.Infrastructure.Platform.{System, World, Post}
use secunda_test.Infrastructure.Webhook.{Retrying}

-- What tenacity documents of its loop, from the attempt with a number on: it ends with an attempt
-- that returns or whose exception is not to be retried, raises `RetryError` when the number has
-- reached `stop`, and sleeps before any other attempt, `base` first and twice as long each time.
pub data Tried (retry : Exc → Bool) (stop base : ℕ) (body : ℕ → Exec World (Unit {0}))
    : ℕ → World → Result (Unit {0}) × World → Type 0 where
  returned :
      (k : ℕ) (w w' : World) → body k w ≡ (ok tt, w') → Tried retry stop base body k w (ok tt, w')
  raised :
      (k : ℕ) (w w' : World) (e : Exc)
      → body k w ≡ (err e, w')
      → retry e ≡ false
      → Tried retry stop base body k w (err e, w')
  stopped :
      (k : ℕ) (w w' : World) (e : Exc) (message : Text)
      → body k w ≡ (err e, w')
      → retry e ≡ true
      → stop ≤ k
      → Tried retry stop base body k w (err (retry_error message), w')
  again :
      (k : ℕ) (w w' : World) (e : Exc) (q : Result (Unit {0}) × World)
      → body k w ≡ (err e, w')
      → retry e ≡ true
      → k < stop
      → Tried retry stop base body
          (k + 1)
          (record w' { sleeps = w'.sleeps ++ base * 2 ^ (k - 1) ∷ [] })
          q
      → Tried retry stop base body k w q

-- A loop that behaves so, whatever it is asked to run, and until when.
abbrev pub IsRetrying : Retrying → Type 0
IsRetrying retrying =
    (retry : Exc → Bool) (stop base : ℕ) (body : ℕ → Exec World (Unit {0})) (w : World)
    → Tried retry stop base body 1 w (retrying retry stop base body w)

-- What a POST raises: an error of httpx, one of another library, or a cancellation.
abbrev pub IsPostError : Exc → Type 0
IsPostError (http_error name m) = Unit {0}
IsPostError (other_error name m) = Unit {0}
IsPostError cancelled_error = Unit {0}
IsPostError _ = ⊥

-- Why a POST has failed, if it has: the exception that it raised, or the one that its status raises.
abbrev pub post_fault : System → ℕ → Option Exc
post_fault sys i = elim (sys.post_answer i) [
  | ok status ↦ sys.raise_for_status status
  | err e ↦ some e
]

-- An error of the transport or of the status, after which the receiver is tried again.
unfoldable pub is_transient : Exc → Bool
is_transient (http_error name m) = true
is_transient _ = false

-- The end of a delivery.
pub data Ending : Type 0 where
  answered : Ending
  broken : Exc → Ending
  exhausted : Ending

-- The reference: how many POSTs are made and how they end, from the POST `i` on, where `left` more
-- are allowed after it.
abbrev pub delivery : (ℕ → Option Exc) → ℕ → ℕ → ℕ × Ending
delivery fault zero i = elim (fault i) [
  | none ↦ (1, answered)
  | some e ↦ (1, if is_transient e then exhausted else broken e)
]
delivery fault (suc left) i =
    let rest = delivery fault left (i + 1) in
    elim (fault i) [
      | none ↦ (1, answered)
      | some e ↦ if is_transient e then (suc rest.0, rest.1) else (1, broken e)
    ]

module _ (fault : ℕ → Option Exc) where
  pub delivery_pos : (left i : ℕ) → 1 ≤ (delivery fault left i).0
  delivery_pos zero i = ground arith
  delivery_pos (suc left) i = ground arith

  pub delivery_bound : (left i : ℕ) → (delivery fault left i).0 ≤ suc left
  delivery_bound zero i = ground arith
  delivery_bound (suc left) i = ground (arith, delivery_bound left (i + 1))

-- `n` POSTs with the numbers from `k` on
abbrev pub numbered : ℕ → Text → Fields → ℕ → ℕ → List Post
numbered timeout url payload k zero = []
numbered timeout url payload k (suc n) =
    record { url = url; payload = payload; attempt = k; timeout = timeout }
    ∷ numbered timeout url payload (k + 1) n

-- The waits between `n` POSTs from the one with the number `k` on
abbrev pub waits : ℕ → ℕ → ℕ → List ℕ
waits base k zero = []
waits base k (suc zero) = []
waits base k (suc (suc n)) = base * 2 ^ (k - 1) ∷ waits base (k + 1) (suc n)

pub waits_again :
    (base k n : ℕ) → 1 ≤ n → waits base k (suc n) ≡ base * 2 ^ (k - 1) ∷ waits base (k + 1) n
waits_again base k zero h = absurd (omega arith)
waits_again base k (suc n) h = refl

-- How the loop ends.
abbrev pub Ended : Ending → Result (Unit {0}) → Type 0
Ended answered r = r ≡ ok tt
Ended (broken e) r = r ≡ err e
Ended exhausted r = (message : Text) × (r ≡ err (retry_error message))

module _ (fault : ℕ → Option Exc) where
  pub delivery_answered : (left i : ℕ) → fault i ≡ none → delivery fault left i ≡ (1, answered)
  delivery_answered zero i h = rw (delivery, h)
  delivery_answered (suc left) i h = rw (delivery, h)

  pub delivery_broken :
      (left i : ℕ) {e : Exc}
      → fault i ≡ some e
      → is_transient e ≡ false
      → delivery fault left i ≡ (1, broken e)
  delivery_broken zero i h k = rw (delivery, h, k)
  delivery_broken (suc left) i h k = rw (delivery, h, k)

  pub delivery_exhausted :
      (left i : ℕ) {e : Exc}
      → fault i ≡ some e
      → is_transient e ≡ true
      → left ≡ 0
      → delivery fault left i ≡ (1, exhausted)
  delivery_exhausted left i h k z = rw (z, delivery, h, k)

  pub delivery_again :
      (left rest i : ℕ) {e : Exc}
      → fault i ≡ some e
      → is_transient e ≡ true
      → left ≡ suc rest
      → delivery fault left i
        ≡ (suc (delivery fault rest (i + 1)).0, (delivery fault rest (i + 1)).1)
  delivery_again left rest i h k z = rw (z, delivery, h, k)

  abbrev pub IsHonest : Ending → Type 0
  IsHonest (broken e) = IsPostError e
  IsHonest _ = Unit {0}

  pub delivery-IsHonest :
      ((i : ℕ) (e : Exc) → fault i ≡ some e → IsPostError e)
      → (left i : ℕ) → IsHonest (delivery fault left i).1
  delivery-IsHonest h zero i = elim (Option-cases (fault i)) [
    | inl e ↦ rw (delivery, e) tt
    | inr (x, e) ↦ elim (Bool-cases (is_transient x)) [
      | inl c ↦ rw (delivery, e, c) tt
      | inr c ↦ rw (delivery, e, c) (h i x e)
    ]
  ]
  delivery-IsHonest h (suc left) i = elim (Option-cases (fault i)) [
    | inl e ↦ rw (delivery, e) tt
    | inr (x, e) ↦ elim (Bool-cases (is_transient x)) [
      | inl c ↦ rw (delivery, e, c) (delivery-IsHonest h left (i + 1))
      | inr c ↦ rw (delivery, e, c) (h i x e)
    ]
  ]

  -- A delivery that ends with an answer ends with the POST that is answered.
  pub delivery_last :
      (left i : ℕ)
      → (delivery fault left i).1 ≡ answered
      → fault (i + ((delivery fault left i).0 - 1)) ≡ none
  delivery_last zero i h = elim (Option-cases (fault i)) [
    | inl e ↦
        let one : (delivery fault 0 i).0 ≡ 1 =
          ap (λ (d : ℕ × Ending). d.0) (delivery_answered zero i e) in
        let here : i + ((delivery fault 0 i).0 - 1) ≡ i = omega (arith, one) in ap fault here ∙ e
    | inr (x, e) ↦ elim (Bool-cases (is_transient x)) [
      | inl c ↦ cc (rw (delivery_exhausted zero i e c refl) at h)
      | inr c ↦ cc (rw (delivery_broken zero i e c) at h)
    ]
  ]
  delivery_last (suc left) i h = elim (Option-cases (fault i)) [
    | inl e ↦
        let one : (delivery fault (suc left) i).0 ≡ 1 =
          ap (λ (d : ℕ × Ending). d.0) (delivery_answered (suc left) i e) in
        let here : i + ((delivery fault (suc left) i).0 - 1) ≡ i = omega (arith, one) in
        ap fault here ∙ e
    | inr (x, e) ↦ elim (Bool-cases (is_transient x)) [
      | inl c ↦
          let step = delivery_again (suc left) left i e c refl in
          let counted : (delivery fault (suc left) i).0 ≡ suc (delivery fault left (i + 1)).0 =
            ap (λ (d : ℕ × Ending). d.0) step in
          let ends : (delivery fault left (i + 1)).1 ≡ answered = rw step at h in
          let there : i + ((delivery fault (suc left) i).0 - 1)
              ≡ (i + 1) + ((delivery fault left (i + 1)).0 - 1) =
            omega (arith, counted, delivery_pos fault left (i + 1)) in
          ap fault there ∙ delivery_last left (i + 1) ends
      | inr c ↦ cc (rw (delivery_broken (suc left) i e c) at h)
    ]
  ]
