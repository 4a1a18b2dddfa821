-- ===== src/Tests/Branches.antt =====
-- A timeline with a fork.
use agentic_enterprise.Base.{
  ◌≡◌, Option, none, some, List, [], ◌∷◌, ltb, if◌then◌else◌, length, Text, codes,
}
use agentic_enterprise.History.{Summary, branch_tree, fork_points}
use agentic_enterprise.History.Branches.{lookup, children_of, fork_points_exact}

abbrev summary : Text → Option Text → Summary
summary id parent = record {
  checkpoint_id = some id;
  parent_checkpoint_id = parent;
  next = [];
  message_count = 1;
  status = none;
  created_at = none;
  source = none;
  step = none;
}

abbrev timeline : List Summary
timeline =
    summary (codes "c") (some (codes "a"))
    ∷ summary (codes "b") (some (codes "a"))
    ∷ summary (codes "a") none
    ∷ []

fork_points_exact_example : lookup (some (codes "a")) (fork_points (branch_tree timeline)) ≡ (
    if ltb 1 (length (children_of (some (codes "a")) timeline))
    then some (length (children_of (some (codes "a")) timeline))
    else none)
fork_points_exact_example = fork_points_exact (codes "a") timeline
