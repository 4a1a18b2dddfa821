-- ===== src/Ownership/Uniqueness.antt =====
-- The primary key of `thread_ownership`, and the list of a user's threads.
use agentic_enterprise.Base.{
  ◌≡◌, refl, false, none, List, [], ◌∷◌, ◌++◌, map, arith, filter, Text, text_eq, elem, text_eq_iff,
}
use agentic_enterprise.Settings.{Settings}
use agentic_enterprise.Database.{ThreadOwnership, Db}
use agentic_enterprise.Ownership.{
  owner_of, insert_owner, is_owner, claim_or_check, owned_thread_ids,
}

-- No thread has two rows.
abbrev pub IsUnique : List ThreadOwnership → Type 0
IsUnique [] = Unit
IsUnique (row ∷ rows) = (owner_of row.thread_id rows ≡ none) × IsUnique rows

owner_of-append_none :
    (t : Text) (rows : List ThreadOwnership) (row : ThreadOwnership)
    → owner_of t rows ≡ none
    → text_eq row.thread_id t ≡ false
    → owner_of t (rows ++ row ∷ []) ≡ none
unfolding owner_of
owner_of-append_none t [] row h ne = ground arith
owner_of-append_none t (r ∷ rows) row h ne = ground (arith, owner_of-append_none t rows row)

append-IsUnique :
    (rows : List ThreadOwnership) (row : ThreadOwnership)
    → IsUnique rows
    → owner_of row.thread_id rows ≡ none
    → IsUnique (rows ++ row ∷ [])
unfolding owner_of
append-IsUnique [] row h e = (refl, tt)
append-IsUnique (r ∷ rows) row h e = ground (
  arith,
  append-IsUnique rows row h.1,
  owner_of-append_none r.thread_id rows row h.0,
  text_eq_iff r.thread_id row.thread_id,
  text_eq_iff row.thread_id r.thread_id,
)

insert_owner-IsUnique :
    (t u : Text) (rows : List ThreadOwnership) → IsUnique rows → IsUnique (insert_owner t u rows)
unfolding insert_owner
insert_owner-IsUnique t u rows h =
    ground (arith, append-IsUnique rows (record { thread_id = t; owner_username = u }) h)

-- Every call of `claim_or_check` keeps one row a thread.
pub claim_or_check-IsUnique :
    (settings : Settings) (t u : Text) (db : Db)
    → IsUnique db.ownership
    → IsUnique (claim_or_check settings t u db).1.ownership
unfolding claim_or_check
claim_or_check-IsUnique settings t u db h = ground (arith, insert_owner-IsUnique t u db.ownership h)

abbrev threads : Text → List ThreadOwnership → List Text
threads u rows = map (λ row. row.thread_id) (filter (λ row. text_eq row.owner_username u) rows)

elem-threads-none :
    (t u : Text) (rows : List ThreadOwnership)
    → owner_of t rows ≡ none
    → elem t (threads u rows) ≡ false
unfolding owner_of elem
elem-threads-none t u [] h = refl
elem-threads-none t u (r ∷ rows) h = ground (arith, elem-threads-none t u rows)

elem-threads :
    (t u : Text) (rows : List ThreadOwnership)
    → IsUnique rows
    → elem t (threads u rows) ≡ is_owner (owner_of t rows) u
unfolding owner_of elem is_owner
elem-threads t u [] h = refl
elem-threads t u (r ∷ rows) h =
    ground (arith, elem-threads t u rows h.1, elem-threads-none t u rows, text_eq_iff r.thread_id t)

-- A thread is in `owned_thread_ids` exactly when the check of its owner passes for that user.
pub elem-owned_thread_ids :
    (t u : Text) (db : Db)
    → IsUnique db.ownership
    → elem t (owned_thread_ids u db) ≡ is_owner (owner_of t db.ownership) u
unfolding owned_thread_ids
elem-owned_thread_ids t u db h = elem-threads t u db.ownership h
