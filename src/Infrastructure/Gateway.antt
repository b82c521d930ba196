-- ===== src/Infrastructure/Gateway.antt =====
-- app/infrastructure/gateway/fake.py. A reading of `random.random()` is its numerator over `2 ** 53`;
-- the rate is a fraction, and a delay is counted in parts of `2 ** 53` of the settings' unit.
use secunda_test.Base.{ℕ, ◌+◌, ◌-◌, ◌*◌, ◌%◌, ◌^◌, Bool, if◌then◌else◌, ltb, leb, [], ◌∷◌, ◌++◌, ok}
use secunda_test.Exec.{Exec, pure, ◌>>=◌, ◌>>◌}
use secunda_test.Domain.Payment.{Payment}
use secunda_test.Application.Interfaces.{PaymentGateway}
use secunda_test.Infrastructure.Platform.{System, World, sleep}

pub record GatewaySettings : Type 0 where
  pub min_delay : ℕ
  pub max_delay : ℕ
  pub rate_numerator : ℕ
  pub rate_denominator : ℕ

-- `random.uniform(a, b)`: `a + (b - a) * random()`
unfoldable pub uniform : ℕ → ℕ → ℕ → ℕ
uniform a b r = if leb a b then a * 2 ^ 53 + (b - a) * r else a * 2 ^ 53 - (a - b) * r

module _ (sys : System) where
  -- `random.random()`
  unfoldable pub random : Exec World ℕ
  random w = (ok (sys.random w.randoms % 2 ^ 53), record w { randoms = w.randoms + 1 })

  unfoldable pub log_charge : Payment → Exec World (Unit {0})
  log_charge p w = (ok tt, record w { charges = w.charges ++ p.id ∷ [] })

  -- `charge(payment)`
  unfoldable pub fake_charge : GatewaySettings → Payment → Exec World Bool
  fake_charge settings p = do
    first ← random
    sleep (uniform settings.min_delay settings.max_delay first)
    drawn ← random
    log_charge p
    pure (ltb (drawn * settings.rate_denominator) (settings.rate_numerator * 2 ^ 53))

  unfoldable pub fake_gateway : GatewaySettings → PaymentGateway World
  fake_gateway settings = record { charge = fake_charge settings }
