-- ===== src/Memory.antt =====
-- app/memory/vector_store.py: memories in a Qdrant collection, and the search over them.
pub mod Isolation
use agentic_enterprise.Base.{
  ℕ, Bool, true, false, Option, none, some, List, [], map, length, filter, Text, elem, Result, err,
  ok, ◌>>=◌, ◌>>◌,
}

pub record Payload : Type 0 where
  pub text : Option Text
  pub thread_id : Option Text

-- A scored point; a score is the bit pattern of a float, which no code looks into.
pub record Point : Type 0 where
  pub score : ℕ
  pub payload : Payload

pub record MemoryHit : Type 0 where
  pub score : ℕ
  pub text : Option Text
  pub thread_id : Option Text

-- A vector of floats, by their bit patterns.
abbrev pub Vector : Type 0
Vector = List ℕ

pub record StoredPoint : Type 0 where
  pub id : Text
  pub vector : Vector
  pub payload : Payload

-- The collection: absent until the first `remember`, with its vector size.
pub record Collection : Type 0 where
  pub size : ℕ
  pub points : List StoredPoint

abbrev pub Store : Type 0
Store = Option Collection

-- Filter(must=[FieldCondition(key="thread_id", match=MatchAny(any=thread_ids))])
unfoldable pub matches : Option (List Text) → Payload → Bool
matches none p = true
matches (some ids) p = elim p.thread_id [ none ↦ false | some t ↦ elem t ids ]

-- The embedding model and the Qdrant server.
pub record Qdrant : Type 0 where
  pub aembed_query : Text → Result Vector
  pub query_points : Collection → Vector → ℕ → Option (List Text) → Result (List Point)
  pub upsert : StoredPoint → Collection → Result Collection

-- `ensure_collection`
unfoldable pub ensure_collection : ℕ → Store → Collection
ensure_collection vector_size none = record { size = vector_size; points = [] }
ensure_collection vector_size (some c) = c

abbrev pub hit : Point → MemoryHit
hit p = record { score = p.score; text = p.payload.text; thread_id = p.payload.thread_id }

module _ (q : Qdrant) where
  -- Without the `metadata` argument, which no caller gives; `point_id` is the fresh uuid4. A collection
  -- that it makes stays when the upsert raises.
  unfoldable pub remember : Text → Text → Text → Store → Result Text × Store
  unfolding ensure_collection
  remember point_id thread_id text store = elim (q.aembed_query text) [
    | err e ↦ (err e, store)
    | ok vector ↦
        let c = ensure_collection (length vector) store in
        let point : StoredPoint = record {
          id = point_id;
          vector = vector;
          payload = record { text = some text; thread_id = some thread_id };
        } in
        elim (q.upsert point c) [ ok c' ↦ (ok point_id, some c') | err e ↦ (err e, some c) ]
  ]

  -- The search in a collection that exists: no owned thread, no query.
  unfoldable pub search_in : Vector → ℕ → Option (List Text) → Collection → Result (List MemoryHit)
  search_in vector limit (some []) c = ok []
  search_in vector limit filter c = do
    points ← q.query_points c vector limit filter
    ok (map hit points)

  unfoldable pub search : Text → ℕ → Option (List Text) → Store → Result (List MemoryHit)
  unfolding search_in
  search query limit thread_ids store = do
    vector ← q.aembed_query query
    elim store [ none ↦ ok [] | some c ↦ search_in vector limit thread_ids c ]
