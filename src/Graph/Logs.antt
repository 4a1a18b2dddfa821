-- ===== src/Graph/Logs.antt =====
-- app/graph/engine.py, merge_logs: the reducer of internal_logs.
use mathlib.Core.Logic.{if_pos}
use mathlib.Core.List.{append-nil}
use agentic_enterprise.Base.{
  ◌≡◌, refl, true, not, ◌&&◌, ◌||◌, Option, some, List, [], ◌∷◌, ◌++◌, arith,
}
use agentic_enterprise.Graph.State.{is_in, new_lines, or_empty, merge_logs}

module _ {A : Type 0} (dec : Discrete A) where
  is_in-append :
      (a : A) (xs ys : List A) → is_in dec a (xs ++ ys) ≡ (is_in dec a xs || is_in dec a ys)
  unfolding is_in
  is_in-append a [] ys = refl
  is_in-append a (x ∷ xs) ys = ground (arith, is_in-append a xs ys)

  is_in-new_lines :
      (a : A) (base us : List A)
      → is_in dec a (new_lines dec base us) ≡ (is_in dec a us && not (is_in dec a base))
  unfolding new_lines is_in
  is_in-new_lines a base [] = refl
  is_in-new_lines a base (u ∷ us) = ground (arith, is_in-new_lines a base us)

  is_in-merge_logs :
      (a : A) (existing : Option (List A)) (update : List A)
      → is_in dec a (merge_logs dec existing update)
        ≡ (is_in dec a (or_empty existing) || is_in dec a update)
  unfolding merge_logs
  is_in-merge_logs a existing update = ground (
    arith,
    is_in-append a (or_empty existing) (new_lines dec (or_empty existing) update),
    is_in-new_lines a (or_empty existing) update,
  )

  -- A list of updates adds nothing to a base that knows them all.
  new_lines-nil :
      (base us : List A)
      → ((a : A) → is_in dec a us ≡ true → is_in dec a base ≡ true)
      → new_lines dec base us ≡ []
  unfolding new_lines is_in
  new_lines-nil base [] h = refl
  new_lines-nil base (u ∷ us) h =
      let known : is_in dec u base ≡ true = h u (rw (if_pos _ refl)) in
      let rest : new_lines dec base us ≡ [] =
        new_lines-nil base us (λ a m. h a (ground (arith, m))) in
      ground (arith, known, rest)

  -- Merging the same update once more changes nothing: a node that is entered again adds no line
  -- that it has already logged.
  pub merge_logs_again :
      (existing : Option (List A)) (update : List A)
      → merge_logs dec (some (merge_logs dec existing update)) update
        ≡ merge_logs dec existing update
  merge_logs_again existing update =
      let base = merge_logs dec existing update in
      let nothing_new : new_lines dec base update ≡ [] =
        new_lines-nil base update (λ a m. ground (arith, is_in-merge_logs a existing update)) in
      unfold merge_logs in rw nothing_new (append-nil base)
