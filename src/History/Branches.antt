-- ===== src/History/Branches.antt =====
-- The tree of a thread's branches against its flat timeline.
use mathlib.Core.List.{append-nil, append_assoc}
use agentic_enterprise.Base.{
  ◌≡◌, refl, sym, ◌↔◌, inl, inr, true, false, Option, none, some, List, [], ◌∷◌, ◌++◌, arith, ltb,
  if◌then◌else◌, Bool-cases, length, filter, Text, text_eq_iff,
}
use agentic_enterprise.History.{
  Summary, same_key, Tree, add_child, add_all, branch_tree, forks, fork_points,
}

same_key_iff : (a b : Option Text) → (same_key a b ≡ true) ↔ (a ≡ b)
unfolding same_key
same_key_iff none none = (λ _. refl, λ _. refl)
same_key_iff none (some b) = ground arith
same_key_iff (some a) none = ground arith
same_key_iff (some a) (some b) = ground (arith, text_eq_iff a b)

module _ {A : Type 0} where
  -- d.get(key)
  unfoldable pub lookup : Option Text → List (Option Text × A) → Option A
  lookup key [] = none
  lookup key ((k, v) ∷ d) = if same_key k key then some v else lookup key d

-- The entries of a timeline with a given parent, in order.
unfoldable pub children_of : Option Text → List Summary → List Summary
children_of p timeline = filter (λ e. same_key e.parent_checkpoint_id p) timeline

abbrev pub listed : Option (List Summary) → List Summary
listed none = []
listed (some es) = es

listed-add_child :
    (p key : Option Text) (entry : Summary) (tree : Tree)
    → listed (lookup p (add_child key entry tree))
      ≡ (if same_key key p then listed (lookup p tree) ++ entry ∷ [] else listed (lookup p tree))
unfolding lookup add_child
listed-add_child p key entry [] = ground arith
listed-add_child p key entry ((k, children) ∷ tree) = ground (
  arith,
  listed-add_child p key entry tree,
  same_key_iff k key,
  same_key_iff k p,
  same_key_iff key p,
)

listed-add_all :
    (p : Option Text) (timeline : List Summary) (tree : Tree)
    → listed (lookup p (add_all timeline tree)) ≡ listed (lookup p tree) ++ children_of p timeline
unfolding add_all children_of
listed-add_all p [] tree = sym (append-nil _)
listed-add_all p (e ∷ timeline) tree =
    rw (listed-add_all p timeline (add_child e.parent_checkpoint_id e tree)) (
      rw (listed-add_child p e.parent_checkpoint_id e tree)
        (elim (Bool-cases (same_key e.parent_checkpoint_id p)) [
          | inl mine ↦ rw mine (append_assoc _ (e ∷ []) _)
          | inr other ↦ rw other
        ]))

-- Under each parent the tree lists exactly the entries of the timeline with that parent, in the
-- timeline's order; an entry without a parent is listed under None.
pub listed-branch_tree :
    (p : Option Text) (timeline : List Summary)
    → listed (lookup p (branch_tree timeline)) ≡ children_of p timeline
unfolding branch_tree lookup
listed-branch_tree p timeline = listed-add_all p timeline []

-- Each parent is one key.
abbrev pub HasUniqueKeys : Tree → Type 0
HasUniqueKeys [] = Unit
HasUniqueKeys ((k, _) ∷ tree) = (lookup k tree ≡ none) × HasUniqueKeys tree

lookup-add_child-none :
    (p key : Option Text) (entry : Summary) (tree : Tree)
    → lookup p tree ≡ none
    → same_key key p ≡ false
    → lookup p (add_child key entry tree) ≡ none
unfolding lookup add_child
lookup-add_child-none p key entry [] h ne = ground arith
lookup-add_child-none p key entry ((k, children) ∷ tree) h ne =
    ground (arith, lookup-add_child-none p key entry tree)

add_child-HasUniqueKeys :
    (key : Option Text) (entry : Summary) (tree : Tree)
    → HasUniqueKeys tree
    → HasUniqueKeys (add_child key entry tree)
unfolding add_child lookup
add_child-HasUniqueKeys key entry [] h = (refl, tt)
add_child-HasUniqueKeys key entry ((k, children) ∷ tree) h = ground (
  arith,
  add_child-HasUniqueKeys key entry tree h.1,
  lookup-add_child-none k key entry tree h.0,
  same_key_iff k key,
  same_key_iff key k,
)

add_all-HasUniqueKeys :
    (timeline : List Summary) (tree : Tree)
    → HasUniqueKeys tree
    → HasUniqueKeys (add_all timeline tree)
unfolding add_all
add_all-HasUniqueKeys [] tree h = h
add_all-HasUniqueKeys (e ∷ timeline) tree h =
    add_all-HasUniqueKeys timeline (add_child e.parent_checkpoint_id e tree)
      (add_child-HasUniqueKeys e.parent_checkpoint_id e tree h)

lookup-fork_points_none :
    (p : Option Text) (tree : Tree) → lookup p tree ≡ none → lookup p (fork_points tree) ≡ none
unfolding lookup fork_points
lookup-fork_points_none p [] h = refl
lookup-fork_points_none p ((k, children) ∷ tree) h = ground (arith, lookup-fork_points_none p tree)

lookup-fork_points :
    (p : Option Text) (tree : Tree)
    → HasUniqueKeys tree
    → lookup p (fork_points tree)
      ≡ (if forks p (listed (lookup p tree)) then some (length (listed (lookup p tree))) else none)
unfolding lookup fork_points
lookup-fork_points none [] h = refl
lookup-fork_points (some p) [] h = refl
lookup-fork_points p ((k, children) ∷ tree) h =
    ground (arith, lookup-fork_points p tree h.1, lookup-fork_points_none p tree, same_key_iff k p)

-- A checkpoint is a fork point of a thread's branches exactly if more than one entry of the
-- timeline has it as parent, and it comes with the number of these entries.
pub fork_points_exact :
    (p : Text) (timeline : List Summary)
    → lookup (some p) (fork_points (branch_tree timeline)) ≡ (
        if ltb 1 (length (children_of (some p) timeline))
        then some (length (children_of (some p) timeline))
        else none)
unfolding branch_tree forks
fork_points_exact p timeline =
    rw (lookup-fork_points (some p) (add_all timeline []) (add_all-HasUniqueKeys timeline [] tt))
      (rw (listed-branch_tree (some p) timeline))
