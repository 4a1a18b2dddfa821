-- ===== src/Memory/Isolation.antt =====
-- app/memory/vector_store.py, search: the threads of the hits.
use agentic_enterprise.Base.{
  ℕ, ◌≡◌, Bool, true, false, Option, none, some, List, [], ◌∷◌, map, All, Text, elem, ok, >>=-eq-ok,
}
use agentic_enterprise.Memory.{
  Point, MemoryHit, Vector, Collection, Store, matches, Qdrant, hit, search_in, search,
}

-- What Qdrant documents of a filtered query: every point satisfies the filter.
pub record HonoursFilter (q : Qdrant) : Type 0 where
  pub filtered :
      (c : Collection) (v : Vector) (limit : ℕ) (filter : Option (List Text)) (points : List Point)
      → q.query_points c v limit filter ≡ ok points
      → All (λ p. matches filter p.payload ≡ true) points

-- A hit that stems from one of the threads.
unfoldable pub hit_in : List Text → MemoryHit → Bool
hit_in ids h = elim h.thread_id [ none ↦ false | some t ↦ elem t ids ]

All-map-hit :
    (ids : List Text) (points : List Point)
    → All (λ p. matches (some ids) p.payload ≡ true) points
    → All (λ h. hit_in ids h ≡ true) (map hit points)
unfolding matches hit_in
All-map-hit ids [] h = tt
All-map-hit ids (p ∷ ps) h = (h.0, All-map-hit ids ps h.1)

search_in-All-hit_in :
    (q : Qdrant)
    → HonoursFilter q
    → (v : Vector) (limit : ℕ) (ids : List Text) (c : Collection) (hits : List MemoryHit)
    → search_in q v limit (some ids) c ≡ ok hits
    → All (λ h. hit_in ids h ≡ true) hits
unfolding search_in
search_in-All-hit_in q f v limit [] c hits e = let none_found : hits ≡ [] = cc in rw none_found tt
search_in-All-hit_in q f v limit (i ∷ ids) c hits e =
    let (points, found, shaped) = >>=-eq-ok (q.query_points c v limit (some (i ∷ ids))) _ e in
    let same : hits ≡ map hit points = cc in
    rw same (All-map-hit (i ∷ ids) points (f.filtered c v limit (some (i ∷ ids)) points found))

-- Every hit of a search over some threads has one of them as its thread.
pub search-All-hit_in :
    (q : Qdrant)
    → HonoursFilter q
    → (query : Text) (limit : ℕ) (ids : List Text) (store : Store) (hits : List MemoryHit)
    → search q query limit (some ids) store ≡ ok hits
    → All (λ h. hit_in ids h ≡ true) hits
unfolding search
search-All-hit_in q f query limit ids none hits e =
    let (v, _, found) = >>=-eq-ok (q.aembed_query query) _ e in
    let none_found : hits ≡ [] = cc in rw none_found tt
search-All-hit_in q f query limit ids (some c) hits e =
    let (v, _, found) = >>=-eq-ok (q.aembed_query query) _ e in
    search_in-All-hit_in q f v limit ids c hits found
