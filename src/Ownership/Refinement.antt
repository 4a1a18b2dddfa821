-- ===== src/Ownership/Refinement.antt =====
-- app/graph/ownership.py against what it promises: a map from threads to owners in which the first
-- claim of a thread stays.
use mathlib.Core.Path.{fun_ext}
use mathlib.Core.List.Perm
use mathlib.Core.List.{Perm, append_assoc}
use agentic_enterprise.Base.{
  ◌≡◌, refl, ap, ◌∙◌, inl, inr, Bool, true, false, Option, none, some, List, [], ◌∷◌, ◌++◌, arith,
  Option-cases, if◌then◌else◌, Bool-cases, Text, text_eq, text_eq_comm, Result, ok,
}
use agentic_enterprise.Settings.{Settings}
use agentic_enterprise.Database.{ThreadOwnership, Db}
use agentic_enterprise.Ownership.{is_admin, owner_of, insert_owner, claim_or_check}
use agentic_enterprise.Ownership.Uniqueness.{IsUnique, claim_or_check-IsUnique}
use agentic_enterprise.Ownership.Claims.{owner_of-insert_owner, owner_after, claim_or_check_verdict}

-- The abstract state: who owns what.
abbrev pub Owners : Type 0
Owners = Text → Option Text

-- The table, seen as such a map: the order of its rows and rows that come second do not count.
abbrev pub owners : Db → Owners
owners db thread_id = owner_of thread_id db.ownership

-- A call: the thread and the caller.
abbrev pub Call : Type 0
Call = Text × Text

-- The promise for one call: the admin passes and claims nothing; anyone else takes an unowned thread
-- and passes if they are the owner then.
abbrev pub taken : Option Text → Call → Text → Option Text
taken none (t, u) s = if text_eq t s then some u else none
taken (some owner) call s = some owner

abbrev pub take_unowned : Owners → Call → Owners
take_unowned m call s = taken (m s) call s

abbrev pub promise : Settings → Owners → Call → Bool × Owners
promise settings m (t, u) =
    if is_admin settings u
    then (true, m)
    else (text_eq (owner_after (m t) u) u, take_unowned m (t, u))

-- The calls of a service one after the other, with their verdicts: on the table, and as promised.
unfoldable pub run_calls : Settings → List Call → Db → List (Result Bool) × Db
run_calls settings [] db = ([], db)
run_calls settings ((t, u) ∷ calls) db =
    let (verdict, db') = claim_or_check settings t u db in
    let (verdicts, end) = run_calls settings calls db' in (verdict ∷ verdicts, end)

unfoldable pub replay : Settings → List Call → Owners → List (Result Bool) × Owners
replay settings [] m = ([], m)
replay settings (call ∷ calls) m =
    let (verdict, m') = promise settings m call in
    let (verdicts, end) = replay settings calls m' in (ok verdict ∷ verdicts, end)

module _ (settings : Settings) where
  owner_after_claim :
      (t u s : Text) (db : Db)
      → owner_of s (insert_owner t u db.ownership) ≡ taken (owners db s) (t, u) s
  owner_after_claim t u s db = ground (arith, owner_of-insert_owner t s u db.ownership)

  owners-claim_or_check :
      (t u : Text) (db : Db)
      → owners (claim_or_check settings t u db).1 ≡ (promise settings (owners db) (t, u)).1
  unfolding claim_or_check
  owners-claim_or_check t u db = elim (Bool-cases (is_admin settings u)) [
    | inl admin ↦ rw (admin, claim_or_check) refl
    | inr plain ↦ rw (plain, claim_or_check) (fun_ext (λ s. owner_after_claim t u s db))
  ]

  verdict-promise :
      (t u : Text) (db : Db)
      → (claim_or_check settings t u db).0 ≡ ok (promise settings (owners db) (t, u)).0
  verdict-promise t u db = elim (Bool-cases (is_admin settings u)) [
    | inl admin ↦ rw (claim_or_check_verdict settings t u db, admin) refl
    | inr plain ↦ rw (claim_or_check_verdict settings t u db, plain) refl
  ]

  -- Any calls on the table give the verdicts of the promise, and leave a table that reads as the map of
  -- the promise: claim_or_check implements the map, whatever rows the table has.
  pub run_calls_refines :
      (calls : List Call) (db : Db)
      → let (verdicts, db') = run_calls settings calls db in
        let (promised, m) = replay settings calls (owners db) in
        (verdicts ≡ promised) × (owners db' ≡ m)
  unfolding run_calls replay
  run_calls_refines [] db = (refl, refl)
  run_calls_refines ((t, u) ∷ calls) db =
      let db' = (claim_or_check settings t u db).1 in
      let (verdicts, end) = run_calls_refines calls db' in
      let seen = owners-claim_or_check t u db in
      (
        ap (λ v. v ∷ (run_calls settings calls db').0) (verdict-promise t u db)
            ∙ ap (λ vs. ok (promise settings (owners db) (t, u)).0 ∷ vs)
                (verdicts ∙ ap (λ m. (replay settings calls m).0) seen),
        end ∙ ap (λ m. (replay settings calls m).1) seen,
      )

-- What an insert does to the rows.
inserts_row :
    (t u : Text) (rows : List ThreadOwnership)
    → owner_of t rows ≡ none
    → insert_owner t u rows ≡ rows ++ record { thread_id = t; owner_username = u } ∷ []
unfolding insert_owner
inserts_row t u rows free = rw (free, insert_owner) refl

keeps_rows :
    (t u o : Text) (rows : List ThreadOwnership)
    → owner_of t rows ≡ some o
    → insert_owner t u rows ≡ rows
unfolding insert_owner
keeps_rows t u o rows owned = rw (owned, insert_owner) refl

swap_last :
    (rows : List ThreadOwnership) (a b : ThreadOwnership)
    → Perm ((rows ++ a ∷ []) ++ b ∷ []) ((rows ++ b ∷ []) ++ a ∷ [])
swap_last rows a b =
    rw (append_assoc rows (a ∷ []) (b ∷ []), append_assoc rows (b ∷ []) (a ∷ []))
      (Perm.append (Perm.refl rows) (Perm.swap b a []))

owner_of-other :
    (t s v : Text) (rows : List ThreadOwnership)
    → text_eq s t ≡ false
    → owner_of t (insert_owner s v rows) ≡ owner_of t rows
owner_of-other t s v rows apart = ground (arith, owner_of-insert_owner s t v rows)

inserts_commute :
    (t u s v : Text) (rows : List ThreadOwnership)
    → text_eq t s ≡ false
    → Perm (insert_owner t u (insert_owner s v rows)) (insert_owner s v (insert_owner t u rows))
inserts_commute t u s v rows apart =
    let apart' : text_eq s t ≡ false = text_eq_comm s t ∙ apart in
    let seen = owner_of-other t s v rows apart' in
    let seen' = owner_of-other s t u rows apart in
    elim (Option-cases (owner_of t rows)) [
      | inr (o, owned) ↦
          rw (keeps_rows t u o (insert_owner s v rows) (seen ∙ owned), keeps_rows t u o rows owned)
            (Perm.refl (insert_owner s v rows))
      | inl free ↦ elim (Option-cases (owner_of s rows)) [
        | inr (o, owned) ↦
            rw
              (
                keeps_rows s v o (insert_owner t u rows) (seen' ∙ owned),
                keeps_rows s v o rows owned,
              )
              (Perm.refl (insert_owner t u rows))
        | inl free' ↦
            rw
              (
                inserts_row t u (insert_owner s v rows) (seen ∙ free),
                inserts_row s v (insert_owner t u rows) (seen' ∙ free'),
                inserts_row s v rows free',
                inserts_row t u rows free,
              )
              (swap_last rows _ _)
      ]
    ]

module _ (settings : Settings) where
  -- The database after a call.
  abbrev pub claimed : Text → Text → Db → Db
  claimed t u db = (claim_or_check settings t u db).1

  abbrev pub verdict : Text → Text → Db → Result Bool
  verdict t u db = (claim_or_check settings t u db).0

  executions-claimed : (t u : Text) (db : Db) → (claimed t u db).executions ≡ db.executions
  unfolding claim_or_check
  executions-claimed t u db = ground arith

  ownership-claimed :
      (t u : Text) (db : Db)
      → (claimed t u db).ownership
        ≡ (if is_admin settings u then db.ownership else insert_owner t u db.ownership)
  unfolding claim_or_check
  ownership-claimed t u db = ground arith

  ownership_after_two :
      (t u s v : Text) (db : Db)
      → (claimed t u (claimed s v db)).ownership ≡ (
          let rows = if is_admin settings v then db.ownership else insert_owner s v db.ownership in
          if is_admin settings u then rows else insert_owner t u rows)
  ownership_after_two t u s v db =
      ownership-claimed t u (claimed s v db)
      ∙ ap (λ rows. if is_admin settings u then rows else insert_owner t u rows)
          (ownership-claimed s v db)

  verdict-other :
      (t u s v : Text) (db : Db)
      → text_eq s t ≡ false
      → verdict t u (claimed s v db) ≡ verdict t u db
  verdict-other t u s v db apart =
      let same : owner_of t (claimed s v db).ownership ≡ owner_of t db.ownership =
        ap (owner_of t) (ownership-claimed s v db) ∙ elim (Bool-cases (is_admin settings v)) [
          | inl admin ↦ rw admin refl
          | inr plain ↦ rw plain (owner_of-other t s v db.ownership apart)
        ] in
      claim_or_check_verdict settings t u (claimed s v db)
      ∙ rw (same, claim_or_check_verdict settings t u db) refl

  rows_commute :
      (t u s v : Text) (db : Db)
      → text_eq t s ≡ false
      → Perm (claimed t u (claimed s v db)).ownership (claimed s v (claimed t u db)).ownership
  rows_commute t u s v db apart =
      rw (ownership_after_two t u s v db, ownership_after_two s v t u db)
        (elim (Bool-cases (is_admin settings u)) [
          | inl admin ↦ rw admin (Perm.refl _)
          | inr plain ↦ elim (Bool-cases (is_admin settings v)) [
            | inl admin ↦ rw (plain, admin) (Perm.refl _)
            | inr too ↦ rw (plain, too) (inserts_commute t u s v db.ownership apart)
          ]
        ])

  -- Calls for two different threads commute, on a table in which no thread has two rows: either order
  -- gives each caller the verdict that the call has alone, leaves the executions as they were, and
  -- leaves the same rows of owners up to their order, with one row for a thread at most.
  pub claims_commute :
      (t u s v : Text) (db : Db)
      → text_eq t s ≡ false
      → IsUnique db.ownership
      → let first = claimed t u db in
        let second = claimed s v db in
        (verdict t u second ≡ verdict t u db)
        × (verdict s v first ≡ verdict s v db)
        × ((claimed t u second).executions ≡ db.executions)
        × ((claimed s v first).executions ≡ db.executions)
        × Perm (claimed t u second).ownership (claimed s v first).ownership
        × IsUnique (claimed t u second).ownership
        × IsUnique (claimed s v first).ownership
  claims_commute t u s v db apart unique = (
    verdict-other t u s v db (text_eq_comm s t ∙ apart),
    verdict-other s v t u db apart,
    executions-claimed t u (claimed s v db) ∙ executions-claimed s v db,
    executions-claimed s v (claimed t u db) ∙ executions-claimed t u db,
    rows_commute t u s v db apart,
    claim_or_check-IsUnique settings t u (claimed s v db)
        (claim_or_check-IsUnique settings s v db unique),
    claim_or_check-IsUnique settings s v (claimed t u db)
        (claim_or_check-IsUnique settings t u db unique),
  )
