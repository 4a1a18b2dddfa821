-- ===== src/Database/Rows.antt =====
-- app/models.py: which rows are stored, and which are refused.
use agentic_enterprise.Base.{
  ℕ, zero, suc, ◌≤◌, ◌≡◌, refl, inl, inr, Bool, true, false, not, ◌&&◌, ◌||◌, none, some, List, [],
  ◌∷◌, ◌++◌, arith, ◌==◌, Option-cases, length, take, Text, is_surrogate, Result, ok, >>=-eq-ok,
  Raises, >>=-Raises,
}
use agentic_enterprise.Database.{FileAuditEvent, CodeExecutionEvent}
use agentic_enterprise.Database.Columns.{
  Postgres, nullable_column, file_audit_row, code_execution_row, insert_row,
}

-- What UTF-8 can encode, without the character 0.
unfoldable pub is_storable : Text → Bool
unfolding is_surrogate
is_storable [] = true
is_storable (c ∷ s) = not (c == 0 || is_surrogate c) && is_storable s

-- Only blanks follow the first `n` characters.
unfoldable pub is_blank_after : ℕ → Text → Bool
is_blank_after n [] = true
is_blank_after zero (c ∷ s) = c == 32 && is_blank_after zero s
is_blank_after (suc n) (c ∷ s) = is_blank_after n s

abbrev pub max_integer : ℕ
max_integer = 2147483647

-- What Postgres documents of its columns: they store as it is a text that fits, and an integer of 32
-- bits with a sign; a text with the character 0 is refused, and one that is longer than its
-- column and would lose more than blanks.
pub record HonoursColumns (pg : Postgres) : Type 0 where
  pub stores_string :
      (n : ℕ) (s : Text) → length s ≤ n → is_storable s ≡ true → pg.string_column n s ≡ ok s
  pub stores_text : (s : Text) → is_storable s ≡ true → pg.text_column s ≡ ok s
  pub stores_integer : (n : ℕ) → n ≤ max_integer → pg.integer_column n ≡ ok n
  pub refuses_long : (n : ℕ) (s : Text) → is_blank_after n s ≡ false → Raises (pg.string_column n s)
  pub refuses_text : (s : Text) → is_storable s ≡ false → Raises (pg.text_column s)

module _ (pg : Postgres) where
  -- A row that is there has been taken by its columns.
  pub insert_row-eq-ok :
      {A : Type 0} (checked : A → Result A) (row : A) (rows rows' : List A)
      → insert_row pg checked row rows ≡ ok rows'
      → (stored : A) × (checked row ≡ ok stored) × (rows' ≡ rows ++ stored ∷ [])
  unfolding insert_row
  insert_row-eq-ok checked row rows rows' h = elim (Option-cases pg.outage) [
    | inr (e, o) ↦ absurd (cc)
    | inl o ↦
        let (stored, taken, same) = >>=-eq-ok (checked row) _ (rw o at h) in (stored, taken, cc)
  ]

  pub insert_row-Raises :
      {A : Type 0} (checked : A → Result A) (row : A) (rows : List A)
      → Raises (checked row)
      → Raises (insert_row pg checked row rows)
  unfolding insert_row
  insert_row-Raises checked row rows h = elim (Option-cases pg.outage) [
    | inr (e, o) ↦ (e, rw (o, insert_row) refl)
    | inl o ↦ (h.0, rw (o, h.1, insert_row) refl)
  ]

  pub insert_row_stores :
      {A : Type 0} (checked : A → Result A) (row : A) (rows : List A)
      → pg.outage ≡ none
      → checked row ≡ ok row
      → insert_row pg checked row rows ≡ ok (rows ++ row ∷ [])
  unfolding insert_row
  insert_row_stores checked row rows o h = rw (o, h, insert_row) refl

module _ (pg : Postgres) (honours : HonoursColumns pg) where
  open honours use {stores_string, stores_text, stores_integer, refuses_long, refuses_text}

  -- A file event whose texts fit their columns and whose size is a 32-bit integer is stored as it is.
  pub file_audit_row_fits :
      (e : FileAuditEvent)
      → length e.path ≤ 1024
      → is_storable e.path ≡ true
      → e.byte_count ≤ max_integer
      → is_storable e.preview ≡ true
      → file_audit_row pg e ≡ ok e
  unfolding file_audit_row
  file_audit_row_fits e short clean small clean' =
      rw
        (
          stores_string 1024 e.path short clean,
          stores_integer e.byte_count small,
          stores_text e.preview clean',
        )
        refl

  -- One with a preview that the column refuses is not stored.
  pub file_audit_row-Raises :
      (e : FileAuditEvent) → is_storable e.preview ≡ false → Raises (file_audit_row pg e)
  unfolding file_audit_row
  file_audit_row-Raises e h = >>=-Raises (pg.string_column 1024 e.path) _ λ path.
      >>=-Raises (pg.integer_column e.byte_count) _
        λ n. let (x, refused) = refuses_text e.preview h in (x, rw refused refl)

  -- A row with a thread id that is too long is not stored.
  pub code_execution_row-Raises :
      (e : CodeExecutionEvent) (thread : Text)
      → e.thread_id ≡ some thread
      → is_blank_after 128 thread ≡ false
      → Raises (code_execution_row pg e)
  unfolding code_execution_row nullable_column
  code_execution_row-Raises e thread same long =
      let (x, h) = refuses_long 128 thread long in (x, rw (same, h) refl)

  -- A code event whose texts fit their columns is stored as it is.
  pub code_execution_row_fits :
      (e : CodeExecutionEvent) (thread : Text)
      → e.thread_id ≡ some thread
      → length thread ≤ 128
      → is_storable thread ≡ true
      → e.code_length ≤ max_integer
      → length e.detail ≤ 512
      → is_storable e.detail ≡ true
      → code_execution_row pg e ≡ ok e
  unfolding code_execution_row nullable_column
  code_execution_row_fits e thread same short clean small short' clean' =
      rw
        (
          same,
          stores_string 128 thread short clean,
          stores_integer e.code_length small,
          stores_string 512 e.detail short' clean',
        )
        refl

pub length-take_le : (n : ℕ) (s : Text) → length (take n s) ≤ n
length-take_le zero s = omega arith
length-take_le (suc n) [] = omega arith
length-take_le (suc n) (c ∷ s) = omega (arith, length-take_le n s)
