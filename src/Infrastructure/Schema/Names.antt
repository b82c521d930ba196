-- ===== src/Infrastructure/Schema/Names.antt =====
-- What other parts of the service rely on in the declared constraints.
use secunda_test.Base.{
  ◌≡◌, ◌↔◌, refl, sym, ap, ◌∙◌, Bool, true, false, List, ◌++◌, lit, Member, text_eq, text_eq_sound,
  text_eq_refl, arith, All, All-Member,
}
use secunda_test.Infrastructure.Schema.{
  Rule, check, unique, primary_key, Constraint, payments_table, outbox_table, conventional_name,
  enum_check,
}
use secunda_test.Infrastructure.Session.{idempotency_key_constraint, occurs}

-- The constraints of both tables.
abbrev pub declared : List Constraint
declared = payments_table.constraints ++ outbox_table.constraints

abbrev pub Decides : Constraint → Type 0
Decides c =
    (occurs idempotency_key_constraint c.name ≡ true) ↔ (c.rule ≡ unique (lit "idempotency_key"))

abbrev is_unique_key : Rule → Bool
is_unique_key (unique column) = text_eq column (lit "idempotency_key")
is_unique_key _ = false

is_unique_key_sound : (r : Rule) → is_unique_key r ≡ true → r ≡ unique (lit "idempotency_key")
is_unique_key_sound (unique column) h = ap unique (text_eq_sound column _ h)
is_unique_key_sound (primary_key column) h = ground arith
is_unique_key_sound (check condition) h = ground arith

is_unique_key_complete : (r : Rule) → r ≡ unique (lit "idempotency_key") → is_unique_key r ≡ true
is_unique_key_complete r e = rw e (text_eq_refl (lit "idempotency_key"))

abbrev Agrees : Constraint → Type 0
Agrees c = occurs idempotency_key_constraint c.name ≡ is_unique_key c.rule

declared_agree : All Agrees declared
unfolding lit payments_table outbox_table conventional_name enum_check occurs
    idempotency_key_constraint
declared_agree = (refl, (refl, (refl, (refl, (refl, (refl, (refl, tt)))))))

-- Of the constraints of both tables, the one whose violation the unit of work takes for a duplicate
-- idempotency key, by finding its name in the message, is the unique one of that column and no other.
pub constraint_name_iff : (c : Constraint) → Member c declared → Decides c
constraint_name_iff c m =
    let same = All-Member Agrees declared declared_agree m in
    (λ e. is_unique_key_sound c.rule (sym same ∙ e), λ e. same ∙ is_unique_key_complete c.rule e)
