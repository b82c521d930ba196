-- ===== src/Examples/Requests.antt =====
-- The use cases at concrete inputs, over the system in memory.
use mathlib.Core.Path.{subst}
use secunda_test.Base.{◌≡◌, refl, Option, some, none, lit, ok, first, sym, ap, ◌∙◌, false, Result}
use secunda_test.Domain.Payment.{Payment}
use secunda_test.Infrastructure.Invariant.{IsTables, Evolves, Evolves-refl}
use secunda_test.Infrastructure.Mappers.{payment_to_model}
use secunda_test.Infrastructure.Models.{find_payment}
use secunda_test.Infrastructure.Session.{seen, arrived}
use secunda_test.Infrastructure.Repositories.{has_key}
use secunda_test.Infrastructure.Mappers.RoundTrip.{payment_from_model-payment_to_model}
use secunda_test.Service.{create_use_case, get_use_case}
use secunda_test.Service.Creating.{IsIdle}
use secunda_test.Service.Keeping.{create_use_case-keeps}
use secunda_test.Service.Replaying.{
  answer, lookup, create_use_case-replays, get_use_case-lookup, ReadAs,
}
use secunda_test.Examples.Creation.{created, it_creates, it_stores}
use secunda_test.Examples.Memory.{empty_world, memory}
use secunda_test.Examples.Lawful.{memory-IsLawful}
use secunda_test.Examples.Data.{
  payment, row, command, world, tables, tables-IsTables, payment-IsPayment,
}
use secunda_test.Service.Durable.{create_use_case-Stands}
use secunda_test.Service.Stored.{Stands}
use secunda_test.Service.Idempotent.{create_use_case-idempotent}
use secunda_test.Application.Dto.{CreatePaymentResult}
use secunda_test.Infrastructure.Platform.{World}

world-IsIdle : IsIdle world
world-IsIdle = record { clean = refl; no_payments = refl; no_outbox = refl }

seen-IsTables : IsTables (seen (arrived memory world))
unfolding arrived memory
seen-IsTables = tables-IsTables

no_fault : memory.statement_fault 0 ≡ none
unfolding memory
no_fault = refl

row_stands :
    first (has_key command.idempotency_key) (seen (arrived memory world)).payments ≡ some row
unfolding arrived memory payment_to_model lit
row_stands = refl

empty-IsIdle : IsIdle empty_world
empty-IsIdle = record { clean = refl; no_payments = refl; no_outbox = refl }

empty-IsTables : IsTables empty_world.tables
empty-IsTables = record { distinct = tt; rows = tt; announced = tt }

create_use_case-keeps_example :
    IsTables (create_use_case memory command empty_world).1.tables
    × Evolves empty_world.tables (create_use_case memory command empty_world).1.tables
create_use_case-keeps_example =
    create_use_case-keeps memory command empty_world memory-IsLawful empty-IsIdle empty-IsTables

create_use_case-replays_example :
    create_use_case memory command world
    ≡ (answer command payment row.request_hash, arrived memory world)
create_use_case-replays_example =
    create_use_case-replays memory command world row payment memory-IsLawful seen-IsTables no_fault
      row_stands (payment_from_model-payment_to_model payment (lit "5f") payment-IsPayment)

get_use_case-lookup_example :
    (o : Option Payment) × ReadAs (find_payment 1 (seen (arrived memory world)).payments) o
    × (get_use_case memory 1 world ≡ (lookup 1 o, arrived memory world))
get_use_case-lookup_example =
    get_use_case-lookup memory 1 world memory-IsLawful seen-IsTables no_fault

abbrev result : CreatePaymentResult
result = record { payment = payment; created = false }

replayed_world :
    create_use_case memory command world
    ≡ (answer command payment row.request_hash, arrived memory world)
replayed_world =
    create_use_case-replays memory command world row payment memory-IsLawful seen-IsTables no_fault
      row_stands (payment_from_model-payment_to_model payment (lit "5f") payment-IsPayment)

answer_is_result : answer command payment row.request_hash ≡ ok result
unfolding payment_to_model lit
answer_is_result = refl

it_returns : (create_use_case memory command world).0 ≡ ok result
it_returns = ap (λ (q : Result CreatePaymentResult × World). q.0) replayed_world ∙ answer_is_result

nothing_between : Evolves (create_use_case memory command empty_world).1.tables world.tables
nothing_between = subst (λ t. Evolves t tables) (sym it_stores) (Evolves-refl tables)

create_use_case-Stands_example :
    Stands command payment (create_use_case memory command empty_world).1.tables
create_use_case-Stands_example =
    create_use_case-Stands memory command empty_world created memory-IsLawful empty-IsIdle
      empty-IsTables it_creates

create_use_case-idempotent_example :
    (payment.id ≡ payment.id) × (command.request_hash ≡ command.request_hash)
create_use_case-idempotent_example =
    create_use_case-idempotent memory command command empty_world world created result
      memory-IsLawful empty-IsIdle empty-IsTables world-IsIdle tables-IsTables nothing_between refl
      it_creates it_returns
