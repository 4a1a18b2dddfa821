-- ===== src/Mcp/Paths.antt =====
-- app/mcp/paths.py: the jail of the filesystem server, with pathlib's joining and resolving of POSIX
-- paths. An absolute path is the list of its names.
pub mod Jail
use agentic_enterprise.Base.{
  ℕ, zero, suc, Bool, true, false, not, ◌&&◌, Option, none, some, List, [], ◌∷◌, ◌++◌, ◌==◌,
  if◌then◌else◌, filter, Text, codes, text_eq, value_error, failure, Result, ok, err, ◌>>=◌, ◌>>◌,
}

abbrev pub AbsolutePath : Type 0
AbsolutePath = List Text

abbrev pub slash : ℕ
slash = b'/'

-- text.split("/")
unfoldable pub split : Text → List Text
split [] = [] ∷ []
split (c ∷ s) = elim (split s) [
  | [] ↦ (c ∷ []) ∷ []
  | name ∷ names ↦ if c == slash then [] ∷ name ∷ names else (c ∷ name) ∷ names
]

abbrev pub dot : Text
dot = codes "."

abbrev pub dot_dot : Text
dot_dot = codes ".."

-- pathlib drops empty names and ".".
unfoldable pub is_name : Text → Bool
is_name name = not (text_eq name []) && not (text_eq name dot)

unfoldable pub parts : Text → List Text
unfolding split is_name
parts text = filter is_name (split text)

unfoldable pub is_absolute : Text → Bool
is_absolute [] = false
is_absolute (c ∷ s) = c == slash

-- ROOT / relative_path: an absolute path replaces ROOT.
unfoldable pub join : AbsolutePath → Text → List Text
unfolding is_absolute parts
join root text = if is_absolute text then parts text else root ++ parts text

-- The parent of a path; the root is its own.
unfoldable pub parent : AbsolutePath → AbsolutePath
parent [] = []
parent (n ∷ []) = []
parent (n ∷ m ∷ ms) = n ∷ parent (m ∷ ms)

-- candidate.is_relative_to(ROOT): name by name.
unfoldable pub is_relative_to : AbsolutePath → AbsolutePath → Bool
is_relative_to path [] = true
is_relative_to [] (r ∷ root) = false
is_relative_to (p ∷ path) (r ∷ root) = text_eq p r && is_relative_to path root

-- `readlink` is the file system: the target of a path that is a symbolic link.
module _ (readlink : AbsolutePath → Option Text) where
  -- Path.resolve(): the names are taken one by one; ".." goes up, and a link is replaced by its
  -- target. `links` bounds the links that are followed; a path that loops runs out of them.
  unfoldable pub resolve : ℕ → AbsolutePath → List Text → Result AbsolutePath
  resolve links done [] = ok done
  resolve zero done (name ∷ rest) =
      let up = resolve zero (parent done) rest in
      let down = resolve zero (done ++ name ∷ []) rest in
      if text_eq name dot_dot
      then up
      else elim (readlink (done ++ name ∷ [])) [ none ↦ down | some target ↦ err failure ]
  resolve (suc links) done (name ∷ rest) =
      let up = resolve (suc links) (parent done) rest in
      let down = resolve (suc links) (done ++ name ∷ []) rest in
      let follow = λ (target : Text).
        resolve links (if is_absolute target then [] else done) (parts target ++ rest) in
      if text_eq name dot_dot
      then up
      else elim (readlink (done ++ name ∷ [])) [ none ↦ down | some target ↦ follow target ]

  unfoldable pub resolve_in_root : ℕ → AbsolutePath → Text → Result AbsolutePath
  unfolding resolve join is_relative_to
  resolve_in_root links root relative_path = do
    candidate ← resolve links [] (join root relative_path)
    if is_relative_to candidate root then ok candidate else err value_error
