-- ===== src/Ownership/Claims.antt =====
-- app/graph/ownership.py, claim_or_check: its verdict, and the rows that concurrent claims leave.
use agentic_enterprise.Base.{
  Option, none, some, true, List, [], ◌∷◌, ◌++◌, ◌≡◌, arith, Text, text_eq, text_eq_iff,
  text_eq_refl, if◌then◌else◌, ok,
}
use agentic_enterprise.Settings.{Settings}
use agentic_enterprise.Database.{Db, ThreadOwnership}
use agentic_enterprise.Ownership.{is_admin, owner_of, insert_owner, is_owner, claim_or_check}

owner_of-append :
    (t : Text) (rows : List ThreadOwnership) (row : ThreadOwnership)
    → owner_of t (rows ++ row ∷ []) ≡ elim (owner_of t rows) [
      | none ↦ if text_eq row.thread_id t then some row.owner_username else none
      | some o ↦ some o
    ]
unfolding owner_of
owner_of-append t [] row = ground arith
owner_of-append t (r ∷ rows) row = ground (arith, owner_of-append t rows row)

-- Which owner a thread has after an insert.
pub owner_of-insert_owner :
    (t s u : Text) (rows : List ThreadOwnership)
    → owner_of s (insert_owner t u rows)
      ≡ elim (owner_of s rows) [ none ↦ if text_eq t s then some u else none | some o ↦ some o ]
unfolding insert_owner
owner_of-insert_owner t s u rows =
    ground (
      arith,
      owner_of-append s rows (record { thread_id = t; owner_username = u }),
      text_eq_iff t s,
    )

-- An owner, once there, is never replaced, whoever calls and for whatever thread.
pub claim_or_check-keeps_owner :
    (settings : Settings) (t u s o : Text) (db : Db)
    → owner_of s db.ownership ≡ some o
    → owner_of s (claim_or_check settings t u db).1.ownership ≡ some o
unfolding claim_or_check
claim_or_check-keeps_owner settings t u s o db h =
    ground (arith, owner_of-insert_owner t s u db.ownership)

abbrev pub owner_after : Option Text → Text → Text
owner_after none u = u
owner_after (some o) u = o

-- The verdict: the admin passes; any other caller passes if they own the thread already or nobody does.
pub claim_or_check_verdict :
    (settings : Settings) (t u : Text) (db : Db)
    → (claim_or_check settings t u db).0
      ≡ ok (
          if is_admin settings u then true else text_eq (owner_after (owner_of t db.ownership) u) u)
unfolding claim_or_check
claim_or_check_verdict settings t u db =
    ground (arith, owner_of-insert_owner t t u db.ownership, text_eq_refl t)

-- The statements that concurrent requests send for any threads: the inserts of `claim`, in any order.
pub data Inserts (rows : List ThreadOwnership) : List ThreadOwnership → Type 0 where
  here : Inserts rows rows
  after :
      {later : List ThreadOwnership} (t u : Text)
      → Inserts rows later
      → Inserts rows (insert_owner t u later)

insert_owner-keeps :
    (t u s o : Text) (rows : List ThreadOwnership)
    → owner_of s rows ≡ some o
    → owner_of s (insert_owner t u rows) ≡ some o
insert_owner-keeps t u s o rows h = ground (arith, owner_of-insert_owner t s u rows)

Inserts-keeps :
    (s o : Text) (rows : List ThreadOwnership) {later : List ThreadOwnership}
    → owner_of s rows ≡ some o
    → Inserts rows later
    → owner_of s later ≡ some o
Inserts-keeps s o rows h here = h
Inserts-keeps s o rows h (after {later = mid} t u run) =
    insert_owner-keeps t u s o mid (Inserts-keeps s o rows h run)

-- The first insert for an unowned thread decides: after it, and any further inserts by any callers,
-- the check passes for the first caller and for nobody else.
pub first_claim_wins :
    (t u v : Text) (rows later : List ThreadOwnership)
    → owner_of t rows ≡ none
    → Inserts (insert_owner t u rows) later
    → is_owner (owner_of t later) v ≡ text_eq u v
unfolding is_owner
first_claim_wins t u v rows later free run =
    let won : owner_of t (insert_owner t u rows) ≡ some u =
      ground (arith, owner_of-insert_owner t t u rows, text_eq_refl t) in
    rw (Inserts-keeps t u (insert_owner t u rows) won run)
