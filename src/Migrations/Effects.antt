-- ===== src/Migrations/Effects.antt =====
-- What a database documents of the operations of a migration, and what a run of them leaves.
use mathlib.Core.Path.{fun_ext, subst}
use agentic_enterprise.Base.{
  ℕ, ◌≡◌, refl, sym, ap, ◌∙◌, inl, inr, Option, none, some, List, [], ◌∷◌, ◌++◌, if◌then◌else◌,
  Text, text_eq, Result, ok, >>=-eq-ok, Result-cases, Raises,
}
use agentic_enterprise.Migrations.{
  Column, Operation, create_table, create_index, drop_table, drop_index, run_operations,
}

-- A table: its columns, its key, and how many rows it has.
pub record Table : Type 0 where
  pub columns : List Column
  pub primary_key : List Text
  pub rows : ℕ

abbrev pub new_table : List Column → List Text → Table
new_table columns primary_key = record { columns = columns; primary_key = primary_key; rows = 0 }

-- What is under a name, and on which table an index is, after an operation.
unfoldable pub table_after : Operation → Text → Option Table → Option Table
table_after (create_table name columns key) t before =
    if text_eq name t then some (new_table columns key) else before
table_after (drop_table name) t before = if text_eq name t then none else before
table_after (create_index index table columns) t before = before
table_after (drop_index index) t before = before

unfoldable pub off_table : Text → Option Text → Option Text
off_table name none = none
off_table name (some table) = if text_eq table name then none else some table

unfoldable pub index_after : Operation → Text → Option Text → Option Text
unfolding off_table
index_after (create_table name columns key) i before = before
index_after (drop_table name) i before = off_table name before
index_after (create_index index table columns) i before =
    if text_eq index i then some table else before
index_after (drop_index index) i before = if text_eq index i then none else before

-- When an operation is carried out.
abbrev pub Allowed : Operation → (Text → Option Table) → (Text → Option Text) → Type 0
Allowed (create_table name columns key) tables indexes =
    (tables name ≡ none) × (indexes name ≡ none)
Allowed (drop_table name) tables indexes = (t : Table) × (tables name ≡ some t)
Allowed (create_index index table columns) tables indexes =
    ((t : Table) × (tables table ≡ some t)) × (tables index ≡ none) × (indexes index ≡ none)
Allowed (drop_index index) tables indexes = (t : Text) × (indexes index ≡ some t)

-- What Postgres documents: an operation that returns has its effect and no other, it returns when
-- names are free or there as it needs them, and a table or index that is not there cannot be dropped.
pub record HonoursDdl {S : Type 0} (execute : Operation → S → Result S) : Type 0 where
  pub tables : S → Text → Option Table
  pub indexes : S → Text → Option Text
  pub table_effect :
      (o : Operation) (s s' : S) (t : Text)
      → execute o s ≡ ok s'
      → tables s' t ≡ table_after o t (tables s t)
  pub index_effect :
      (o : Operation) (s s' : S) (i : Text)
      → execute o s ≡ ok s'
      → indexes s' i ≡ index_after o i (indexes s i)
  pub accepts :
      (o : Operation) (s : S) → Allowed o (tables s) (indexes s) → (s' : S) × (execute o s ≡ ok s')
  pub no_table : (t : Text) (s : S) → tables s t ≡ none → Raises (execute (drop_table t) s)
  pub no_index : (i : Text) (s : S) → indexes s i ≡ none → Raises (execute (drop_index i) s)

-- The same for a list of operations.
unfoldable pub tables_after : List Operation → Text → Option Table → Option Table
unfolding table_after
tables_after [] t before = before
tables_after (o ∷ os) t before = tables_after os t (table_after o t before)

unfoldable pub indexes_after : List Operation → Text → Option Text → Option Text
unfolding index_after
indexes_after [] i before = before
indexes_after (o ∷ os) i before = indexes_after os i (index_after o i before)

-- Each operation is carried out after those before it.
abbrev pub AllAllowed : List Operation → (Text → Option Table) → (Text → Option Text) → Type 0
AllAllowed [] tables indexes = Unit
AllAllowed (o ∷ os) tables indexes =
    Allowed o tables indexes
    × AllAllowed os (λ t. table_after o t (tables t)) (λ i. index_after o i (indexes i))

module _ {S : Type 0} (execute : Operation → S → Result S) (ddl : HonoursDdl execute) where
  open ddl use {tables, indexes, table_effect, index_effect, accepts, no_index}

  pub run_tables :
      (os : List Operation) (s s' : S) (t : Text)
      → run_operations execute os s ≡ ok s'
      → tables s' t ≡ tables_after os t (tables s t)
  unfolding run_operations tables_after
  run_tables [] s s' t h = let same : s ≡ s' = cc in ap (λ z. tables z t) (sym same)
  run_tables (o ∷ os) s s' t h =
      let (s₁, done, rest) = >>=-eq-ok (execute o s) _ h in
      run_tables os s₁ s' t rest ∙ ap (tables_after os t) (table_effect o s s₁ t done)

  pub run_indexes :
      (os : List Operation) (s s' : S) (i : Text)
      → run_operations execute os s ≡ ok s'
      → indexes s' i ≡ indexes_after os i (indexes s i)
  unfolding run_operations indexes_after
  run_indexes [] s s' i h = let same : s ≡ s' = cc in ap (λ z. indexes z i) (sym same)
  run_indexes (o ∷ os) s s' i h =
      let (s₁, done, rest) = >>=-eq-ok (execute o s) _ h in
      run_indexes os s₁ s' i rest ∙ ap (indexes_after os i) (index_effect o s s₁ i done)

  -- A run raises if its operations come to drop an index that is not there by then.
  pub missing_index-Raises :
      (before after : List Operation) (i : Text) (s : S)
      → indexes_after before i (indexes s i) ≡ none
      → Raises (run_operations execute (before ++ drop_index i ∷ after) s)
  unfolding run_operations indexes_after
  missing_index-Raises [] after i s h = let (e, raised) = no_index i s h in (e, rw raised refl)
  missing_index-Raises (o ∷ os) after i s h = elim (Result-cases (execute o s)) [
    | inl (e, raised) ↦ (e, rw raised refl)
    | inr (s₁, done) ↦
        let (e, raised) =
          missing_index-Raises os after i s₁
            (ap (indexes_after os i) (index_effect o s s₁ i done) ∙ h) in
        (e, rw (done, raised) refl)
  ]

  pub run_accepts :
      (os : List Operation) (s : S)
      → AllAllowed os (tables s) (indexes s)
      → (s' : S) × (run_operations execute os s ≡ ok s')
  unfolding run_operations
  run_accepts [] s allowed = (s, refl)
  run_accepts (o ∷ os) s (allowed, rest) =
      let (s₁, done) = accepts o s allowed in
      let seen : tables s₁ ≡ (λ t. table_after o t (tables s t)) =
        fun_ext (λ t. table_effect o s s₁ t done) in
      let indexed : indexes s₁ ≡ (λ i. index_after o i (indexes s i)) =
        fun_ext (λ i. index_effect o s s₁ i done) in
      let (s', ran) = run_accepts os s₁ (
        subst (λ m. AllAllowed os m (indexes s₁)) (sym seen)
          (subst (λ ix. AllAllowed os (λ t. table_after o t (tables s t)) ix) (sym indexed)
            rest)) in
      (s', rw (done, ran) refl)
