-- ===== src/Mcp/Paths/Jail.antt =====
-- app/mcp/paths.py, resolve_in_root: the paths that it accepts.
use mathlib.Core.List.{append-nil, append_assoc}
use agentic_enterprise.Base.{
  ℕ, zero, suc, ◌≡◌, refl, sym, ap, inl, inr, true, false, Option, none, List, [], ◌∷◌, ◌++◌, arith,
  if◌then◌else◌, Bool-cases, Option-cases, Text, text_eq, text_eq_refl, ok, >>=-eq-ok,
}
use agentic_enterprise.Mcp.Paths.{
  AbsolutePath, dot_dot, parts, is_absolute, join, parent, is_relative_to, resolve, resolve_in_root,
}

module _ (readlink : AbsolutePath → Option Text) where
  -- A path, read on from `done`, that neither goes up nor passes through a link.
  abbrev pub IsCleanFrom : AbsolutePath → List Text → Type 0
  IsCleanFrom done [] = Unit
  IsCleanFrom done (name ∷ rest) =
      (text_eq name dot_dot ≡ false)
      × (readlink (done ++ name ∷ []) ≡ none)
      × IsCleanFrom (done ++ name ∷ []) rest

  abbrev pub IsClean : AbsolutePath → Type 0
  IsClean = IsCleanFrom []

  append-IsCleanFrom :
      (done path : AbsolutePath) (name : Text)
      → IsCleanFrom done path
      → text_eq name dot_dot ≡ false
      → readlink ((done ++ path) ++ name ∷ []) ≡ none
      → IsCleanFrom done (path ++ name ∷ [])
  append-IsCleanFrom done [] name h ne no_link = (ne, rw (append-nil done) at no_link, tt)
  append-IsCleanFrom done (p ∷ path) name h ne no_link = (
    h.0,
    h.1,
    append-IsCleanFrom (done ++ p ∷ []) path name h.2 ne
        (rw (append_assoc done (p ∷ []) path) no_link),
  )

  parent-IsCleanFrom :
      (done path : AbsolutePath) → IsCleanFrom done path → IsCleanFrom done (parent path)
  unfolding parent
  parent-IsCleanFrom done [] h = tt
  parent-IsCleanFrom done (n ∷ []) h = tt
  parent-IsCleanFrom done (n ∷ m ∷ ms) h =
      (h.0, h.1, parent-IsCleanFrom (done ++ n ∷ []) (m ∷ ms) h.2)

  start_IsClean :
      (target : Text) (done : AbsolutePath)
      → IsClean done
      → IsClean (if is_absolute target then [] else done)
  start_IsClean target done h = elim (Bool-cases (is_absolute target)) [
    | inl top ↦ rw top tt
    | inr here ↦ rw here h
  ]

  resolve-IsClean :
      (links : ℕ) (done : AbsolutePath) (names : List Text) (path : AbsolutePath)
      → IsClean done
      → resolve readlink links done names ≡ ok path
      → IsClean path
  unfolding resolve
  resolve-IsClean links done [] path h e = let same : done ≡ path = cc in rw (← same) h
  resolve-IsClean zero done (name ∷ rest) path h e = elim (Bool-cases (text_eq name dot_dot)) [
    | inl up ↦
        let e' : resolve readlink zero (parent done) rest ≡ ok path = ground arith in
        resolve-IsClean zero (parent done) rest path (parent-IsCleanFrom [] done h) e'
    | inr down ↦ elim (Option-cases (readlink (done ++ name ∷ []))) [
      | inl no_link ↦
          let e' : resolve readlink zero (done ++ name ∷ []) rest ≡ ok path = ground arith in
          resolve-IsClean zero (done ++ name ∷ []) rest path
            (append-IsCleanFrom [] done name h down no_link) e'
      | inr (target, link) ↦ absurd (ground arith)
    ]
  ]
  resolve-IsClean (suc links) done (name ∷ rest) path h e =
      elim (Bool-cases (text_eq name dot_dot)) [
        | inl up ↦
            let e' : resolve readlink (suc links) (parent done) rest ≡ ok path = ground arith in
            resolve-IsClean (suc links) (parent done) rest path (parent-IsCleanFrom [] done h) e'
        | inr down ↦ elim (Option-cases (readlink (done ++ name ∷ []))) [
          | inl no_link ↦
              let e' : resolve readlink (suc links) (done ++ name ∷ []) rest ≡ ok path =
                ground arith in
              resolve-IsClean (suc links) (done ++ name ∷ []) rest path
                (append-IsCleanFrom [] done name h down no_link) e'
          | inr (target, link) ↦
              let from = if is_absolute target then [] else done in
              let e' : resolve readlink links from (parts target ++ rest) ≡ ok path =
                ground arith in
              resolve-IsClean links from (parts target ++ rest) path (start_IsClean target done h)
                e'
        ]
      ]

  -- Whatever the path and the links on its way, an accepted path lies below the root, name by name,
  -- and neither ".." nor a link is left in it that could lead out again.
  pub resolve_in_root_jails :
      (links : ℕ) (root : AbsolutePath) (text : Text) (path : AbsolutePath)
      → resolve_in_root readlink links root text ≡ ok path
      → (is_relative_to path root ≡ true) × IsClean path
  unfolding resolve_in_root
  resolve_in_root_jails links root text path h =
      let (candidate, resolved, tested) =
        >>=-eq-ok (resolve readlink links [] (join root text)) _ h in
      elim (Bool-cases (is_relative_to candidate root)) [
        | inl inside ↦
            let same : candidate ≡ path = ground arith in
            rw (← same) (inside, resolve-IsClean links [] (join root text) candidate tt resolved)
        | inr outside ↦ absurd (ground arith)
      ]

  resolve_clean :
      (links : ℕ) (done : AbsolutePath) (names : List Text)
      → IsCleanFrom done names
      → resolve readlink links done names ≡ ok (done ++ names)
  unfolding resolve
  resolve_clean links done [] h = ap ok (sym (append-nil done))
  resolve_clean zero done (name ∷ rest) h =
      rw (h.0, h.1, resolve_clean zero (done ++ name ∷ []) rest h.2)
        (ap ok (append_assoc done (name ∷ []) rest))
  resolve_clean (suc links) done (name ∷ rest) h =
      rw (h.0, h.1, resolve_clean (suc links) (done ++ name ∷ []) rest h.2)
        (ap ok (append_assoc done (name ∷ []) rest))

  is_relative_to-append : (root names : List Text) → is_relative_to (root ++ names) root ≡ true
  unfolding is_relative_to
  is_relative_to-append [] names = refl
  is_relative_to-append (r ∷ root) names =
      ground (arith, text_eq_refl r, is_relative_to-append root names)

  -- A relative path without ".." and without links on the way is accepted, as itself under the root.
  pub resolve_in_root_accepts :
      (links : ℕ) (root : AbsolutePath) (text : Text)
      → is_absolute text ≡ false
      → IsClean (root ++ parts text)
      → resolve_in_root readlink links root text ≡ ok (root ++ parts text)
  unfolding resolve_in_root
  resolve_in_root_accepts links root text relative h = rw relative (
      rw (resolve_clean links [] (root ++ parts text) h)
        (rw (is_relative_to-append root (parts text))))
