-- ===== src/History.antt =====
-- app/graph/history.py: a thread's checkpoints as JSON, and the tree of its branches; with the fork
-- points that app/api/v1/endpoints.py reads off that tree.
pub mod Branches
use agentic_enterprise.Base.{
  ℕ, Bool, true, false, Option, none, some, List, [], ◌∷◌, ◌++◌, map, ltb, if◌then◌else◌, length,
  Text, text_eq, Result, ok, ◌>>=◌, ◌>>◌,
}
use agentic_enterprise.Schemas.{ℤ}
use agentic_enterprise.Messages.{Message}

-- The config of a run: a thread, and a checkpoint if the run is pinned to one.
pub record RunnableConfig : Type 0 where
  pub thread_id : Text
  pub checkpoint_id : Option Text

-- `if checkpoint_id:` is false of None and of "".
unfoldable pub checkpoint_config : Text → Option Text → RunnableConfig
checkpoint_config thread_id none = record { thread_id = thread_id; checkpoint_id = none }
checkpoint_config thread_id (some []) = record { thread_id = thread_id; checkpoint_id = none }
checkpoint_config thread_id (some (c ∷ id)) = record {
  thread_id = thread_id;
  checkpoint_id = some (c ∷ id);
}

-- LangGraph's StateSnapshot, as far as it is read.
pub record StateSnapshot : Type 0 where
  pub checkpoint_id : Option Text
  pub parent_config : Option (Option Text)
  pub next : List Text
  pub messages : Option (List Message)
  pub status : Option Text
  pub created_at : Option Text
  pub source : Option Text
  pub step : Option ℤ

pub record Summary : Type 0 where
  pub checkpoint_id : Option Text
  pub parent_checkpoint_id : Option Text
  pub next : List Text
  pub message_count : ℕ
  pub status : Option Text
  pub created_at : Option Text
  pub source : Option Text
  pub step : Option ℤ

unfoldable pub message_count : Option (List Message) → ℕ
message_count none = 0
message_count (some ms) = length ms

-- (snap.parent_config or {}).get("configurable", {}).get("checkpoint_id")
abbrev parent_id : Option (Option Text) → Option Text
parent_id none = none
parent_id (some id) = id

unfoldable pub snapshot_summary : StateSnapshot → Summary
unfolding message_count
snapshot_summary snap = record {
  checkpoint_id = snap.checkpoint_id;
  parent_checkpoint_id = parent_id snap.parent_config;
  next = snap.next;
  message_count = message_count snap.messages;
  status = snap.status;
  created_at = snap.created_at;
  source = snap.source;
  step = snap.step;
}

-- What is read of a compiled graph's checkpoints: aget_state_history, newest first, and aget_state.
pub record Checkpoints : Type 0 where
  pub aget_state_history : RunnableConfig → ℕ → Result (List StateSnapshot)
  pub aget_state : RunnableConfig → Result StateSnapshot

unfoldable pub thread_timeline : Checkpoints → Text → ℕ → Result (List Summary)
unfolding checkpoint_config snapshot_summary
thread_timeline graph thread_id limit = do
  snaps ← graph.aget_state_history (checkpoint_config thread_id none) limit
  ok (map snapshot_summary snaps)

unfoldable pub is_interrupted : Checkpoints → Text → Result Bool
unfolding checkpoint_config
is_interrupted graph thread_id = do
  snap ← graph.aget_state (checkpoint_config thread_id none)
  ok (ltb 0 (length snap.next))

-- Keys of the tree: None is the parent of a root checkpoint.
unfoldable pub same_key : Option Text → Option Text → Bool
same_key none none = true
same_key none (some b) = false
same_key (some a) none = false
same_key (some a) (some b) = text_eq a b

abbrev pub Tree : Type 0
Tree = List (Option Text × List Summary)

-- tree.setdefault(key, []).append(entry)
unfoldable pub add_child : Option Text → Summary → Tree → Tree
unfolding same_key
add_child key entry [] = (key, entry ∷ []) ∷ []
add_child key entry ((k, children) ∷ tree) =
    if same_key k key
    then (k, children ++ entry ∷ []) ∷ tree
    else (k, children) ∷ add_child key entry tree

unfoldable pub add_all : List Summary → Tree → Tree
unfolding add_child
add_all [] tree = tree
add_all (entry ∷ timeline) tree = add_all timeline (add_child entry.parent_checkpoint_id entry tree)

unfoldable pub branch_tree : List Summary → Tree
unfolding add_all
branch_tree timeline = add_all timeline []

-- p is not None and len(c) > 1
unfoldable pub forks : Option Text → List Summary → Bool
forks none children = false
forks (some p) children = ltb 1 (length children)

-- {p: len(c) for p, c in tree.items() if p is not None and len(c) > 1}
unfoldable pub fork_points : Tree → List (Option Text × ℕ)
unfolding forks
fork_points [] = []
fork_points ((p, children) ∷ tree) =
    let rest = fork_points tree in if forks p children then (p, length children) ∷ rest else rest
