-- ===== src/Tests/Postgres.antt =====
-- A database that is up, with columns as Postgres documents them.
use agentic_enterprise.Base.{
  ℕ, zero, suc, ◌≤◌, ◌≡◌, refl, inl, inr, true, false, ◌&&◌, none, [], ◌∷◌, arith, leb,
  if◌then◌else◌, Bool-cases, length, take, Text, failure, err, ok, Raises,
}
use agentic_enterprise.Database.Columns.{Postgres}
use agentic_enterprise.Database.Rows.{is_storable, is_blank_after, max_integer, HonoursColumns}

abbrev pub postgres : Postgres
postgres = record {
  outage = none;
  string_column = λ n s. if is_storable s && is_blank_after n s then ok (take n s) else err failure;
  text_column = λ s. if is_storable s then ok s else err failure;
  integer_column = λ n. if leb n max_integer then ok n else err failure;
}

is_blank_after-short : (n : ℕ) (s : Text) → length s ≤ n → is_blank_after n s ≡ true
unfolding is_blank_after
is_blank_after-short n [] h = refl
is_blank_after-short zero (c ∷ s) h = ground (arith, h)
is_blank_after-short (suc n) (c ∷ s) h = is_blank_after-short n s (omega (arith, h))

take_all : (n : ℕ) (s : Text) → length s ≤ n → take n s ≡ s
take_all zero [] h = refl
take_all zero (c ∷ s) h = ground (arith, h)
take_all (suc n) [] h = refl
take_all (suc n) (c ∷ s) h = rw (take_all n s (omega (arith, h)))

refuses_long : (n : ℕ) (s : Text) → is_blank_after n s ≡ false → Raises (postgres.string_column n s)
refuses_long n s h = elim (Bool-cases (is_storable s)) [
  | inl c ↦ (failure, rw (h, c) refl)
  | inr c ↦ (failure, rw c refl)
]

pub postgres-HonoursColumns : HonoursColumns postgres
postgres-HonoursColumns = record {
  stores_string =
      λ n s short clean. rw (clean, is_blank_after-short n s short, take_all n s short) refl;
  stores_text = λ s clean. rw clean refl;
  stores_integer = λ n small. ground (arith, small);
  refuses_long = refuses_long;
  refuses_text = λ s h. (failure, rw h refl);
}
