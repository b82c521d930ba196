-- ===== src/Migrations/Server.antt =====
-- What the migrations rely on of PostgreSQL's schema statements and of SQLAlchemy's types for it.
use secunda_test.Base.{
  ℕ, ◌≡◌, Bool, true, false, none, some, List, [], ◌∷◌, ◌++◌, map, if◌then◌else◌, Text, lit,
  text_eq, length, leb, Result, ok, any,
}
use secunda_test.Infrastructure.Schema.{
  ColumnType, uuid_type, native_uuid, enum, ServerDefault, expression, func_now, Constraint,
  primary_key, unique, check, Index, Table,
}
use secunda_test.Migrations.{Operation, create_table, create_index, drop_index, drop_table}

-- The names of the relations that a table brings: its own, and those of its indexes, which its
-- primary key and its unique constraints have too.
abbrev constraint_relations : List Constraint → List Text
constraint_relations [] = []
constraint_relations (c ∷ cs) = elim c.rule [
  | primary_key column ↦ c.name ∷ constraint_relations cs
  | unique column ↦ c.name ∷ constraint_relations cs
  | check condition ↦ constraint_relations cs
]

abbrev pub index_names : List Index → List Text
index_names [] = []
index_names (i ∷ is) = i.name ∷ index_names is

abbrev pub relations : Table → List Text
relations t = t.name ∷ (constraint_relations t.constraints ++ index_names t.indexes)

abbrev pub is_taken : Text → List Table → Bool
is_taken name = any (λ t. any (text_eq name) (relations t))

abbrev pub is_table : Text → List Table → Bool
is_table name = any (λ t. text_eq name t.name)

-- `f` on the table with the name
abbrev pub on_table : Text → (Table → Table) → Table → Table
on_table name f t = if text_eq name t.name then f t else t

abbrev pub with_index : Index → Table → Table
with_index i t = record t { indexes = t.indexes ++ i ∷ [] }

abbrev pub other_indexes : Text → List Index → List Index
other_indexes name [] = []
other_indexes name (i ∷ is) =
    let rest = other_indexes name is in if text_eq name i.name then rest else i ∷ rest

abbrev pub without_index : Text → Table → Table
without_index name t = record t { indexes = other_indexes name t.indexes }

abbrev pub without_table : Text → List Table → List Table
without_table name [] = []
without_table name (t ∷ ts) =
    let rest = without_table name ts in if text_eq name t.name then rest else t ∷ rest

-- Each statement does what it says, where the names that it creates are free and what it drops or
-- changes is there.
pub record IsServer (execute : Operation → List Table → Result (List Table)) : Type 0 where
  pub create_table_ok :
      (t : Table) (schema : List Table)
      → any (λ name. is_taken name schema) (relations t) ≡ false
      → execute (create_table t) schema ≡ ok (schema ++ t ∷ [])
  pub create_index_ok :
      (table : Text) (i : Index) (schema : List Table)
      → is_table table schema ≡ true
      → is_taken i.name schema ≡ false
      → execute (create_index table i) schema ≡ ok (map (on_table table (with_index i)) schema)
  pub drop_index_ok :
      (table name : Text) (schema : List Table)
      → any (λ t. any (text_eq name) (index_names t.indexes)) schema ≡ true
      → execute (drop_index table name) schema ≡ ok (map (without_index name) schema)
  pub drop_table_ok :
      (name : Text) (schema : List Table)
      → is_table name schema ≡ true
      → execute (drop_table name) schema ≡ ok (without_table name schema)

-- How the dialect writes types and defaults.
pub record Dialect : Type 0 where
  pub type_text : ColumnType → Text
  pub default_text : ServerDefault → Text

abbrev pub longest : List Text → ℕ
longest [] = 0
longest (s ∷ rest) = let n = longest rest in if leb n (length s) then length s else n

-- An enum without a length has that of its longest value.
pub record IsDialect (d : Dialect) : Type 0 where
  pub uuids : d.type_text uuid_type ≡ d.type_text native_uuid
  pub enum_length :
      (values : List Text) (name : Text)
      → d.type_text (enum values name none) ≡ d.type_text (enum values name (some (longest values)))
  pub now : d.default_text func_now ≡ d.default_text (expression (lit "now()"))
