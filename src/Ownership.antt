-- ===== src/Ownership.antt =====
-- app/graph/ownership.py: who owns a thread, and who may act on it.
pub mod Claims
pub mod Uniqueness
pub mod Refinement
use agentic_enterprise.Base.{
  Option, none, some, Bool, true, List, [], ◌∷◌, ◌++◌, map, Text, text_eq, if◌then◌else◌, filter,
  ok,
}
use agentic_enterprise.Settings.{Settings}
use agentic_enterprise.Database.{Db, ThreadOwnership, Session, ◌>>=◌, ◌>>◌, pure}

unfoldable pub is_admin : Settings → Text → Bool
is_admin settings username = text_eq username settings.demo_username

-- select(owner_username).where(thread_id == ...)
unfoldable pub owner_of : Text → List ThreadOwnership → Option Text
owner_of thread_id [] = none
owner_of thread_id (row ∷ rows) =
    if text_eq row.thread_id thread_id then some row.owner_username else owner_of thread_id rows

-- insert(...).on_conflict_do_nothing(index_elements=["thread_id"])
unfoldable pub insert_owner : Text → Text → List ThreadOwnership → List ThreadOwnership
unfolding owner_of
insert_owner thread_id username rows = elim (owner_of thread_id rows) [
  | none ↦ rows ++ record { thread_id = thread_id; owner_username = username } ∷ []
  | some owner ↦ rows
]

-- `owner == username`, where `owner` may be None
unfoldable pub is_owner : Option Text → Text → Bool
is_owner none username = Bool.false
is_owner (some owner) username = text_eq owner username

unfoldable pub claim : Text → Text → Session Bool
unfolding insert_owner is_owner
claim thread_id username db =
    let rows = insert_owner thread_id username db.ownership in
    (ok (is_owner (owner_of thread_id rows) username), record db { ownership = rows })

unfoldable pub claim_or_check : Settings → Text → Text → Session Bool
unfolding is_admin claim
claim_or_check settings thread_id username =
    if is_admin settings username then pure true else claim thread_id username

-- select(thread_id).where(owner_username == ...)
unfoldable pub owned_thread_ids : Text → Db → List Text
owned_thread_ids username db =
    map (λ row. row.thread_id) (filter (λ row. text_eq row.owner_username username) db.ownership)
