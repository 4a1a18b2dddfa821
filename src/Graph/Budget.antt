-- ===== src/Graph/Budget.antt =====
-- app/graph/engine.py, retrieve_semantic_memories: the context budget, and whose facts it is spent
-- on.
use agentic_enterprise.Base.{
  ℕ, ◌+◌, ◌-◌, ◌≤◌, ◌≡◌, refl, inl, inr, Bool, true, false, Option, none, some, List, [], ◌∷◌, map,
  arith, ltb, Bool-cases, Option-cases, length, take, get_elem?, get_last?, All, Text, index_error,
  ok, or_raise, >>=-eq-ok, Result-cases,
}
use agentic_enterprise.Settings.{Settings}
use agentic_enterprise.Messages.{Message}
use agentic_enterprise.Database.{Db}
use agentic_enterprise.Ownership.{is_admin, owned_thread_ids}
use agentic_enterprise.Memory.Isolation.{HonoursFilter, hit_in, search-All-hit_in}
use agentic_enterprise.Memory.{MemoryHit, Store, Qdrant, hit, search}
use agentic_enterprise.Graph.State.{memory_done, GraphState, Update, no_update, RuntimeContext}
use agentic_enterprise.Graph.Retriever.{
  max_context_chars, pack, allowed_threads, visible_hits, retrieve_semantic_memories,
}

abbrev pub chars : List Text → ℕ
chars [] = 0
chars (t ∷ ts) = length t + chars ts

abbrev text_of : MemoryHit → Option Text
text_of h = h.text

-- The next hit has a text that does not fit any more.
abbrev pub exceeds : ℕ → ℕ → Option MemoryHit → Bool
exceeds budget used none = true
exceeds budget used (some h) = elim h.text [ none ↦ false | some t ↦ ltb budget (used + length t) ]

-- What `pack` keeps of the hits: a prefix, within the budget, that the next text would exceed.
pub record IsLongestPrefix (budget : ℕ) (hits : List MemoryHit) (texts : List Text) : Type 0 where
  pub prefix : map some texts ≡ map text_of (take (length texts) hits)
  pub within : chars texts ≤ budget
  pub longest : exceeds budget (chars texts) (get_elem? hits (length texts)) ≡ true

pub pack-IsLongestPrefix :
    (budget : ℕ) (hits : List MemoryHit) (texts : List Text)
    → pack budget hits ≡ ok texts
    → IsLongestPrefix budget hits texts
unfolding pack
pack-IsLongestPrefix budget [] texts e =
    let none_kept : texts ≡ [] = cc in
    rw none_kept (record { prefix = refl; within = omega arith; longest = refl })
pack-IsLongestPrefix budget (hit ∷ hits) texts e = elim (Option-cases hit.text) [
  | inl missing ↦ ground arith
  | inr (text, is_text) ↦ elim (Bool-cases (ltb budget (length text))) [
    | inl over ↦
        let none_kept : texts ≡ [] = ground arith in
        rw none_kept (record { prefix = refl; within = omega arith; longest = ground arith })
    | inr fits ↦ elim (Result-cases (pack (budget - length text) hits)) [
      | inl (x, r) ↦ ground arith
      | inr (rest, r) ↦
          let ih = pack-IsLongestPrefix (budget - length text) hits rest r in
          let kept : texts ≡ text ∷ rest = ground arith in
          rw kept (record {
            prefix = cc (is_text, ih.prefix);
            within = ground (arith, ih.within);
            longest = ground (arith, ih.longest, Option-cases (get_elem? hits (length rest)));
          })
    ]
  ]
]

last_of : (o : Option Message) (m : Message) → or_raise o index_error ≡ ok m → o ≡ some m
last_of none m e = cc
last_of (some n) m e = cc

module _ (settings : Settings) (q : Qdrant) (store : Store) (cx : RuntimeContext) where
  -- What a retrieval that does not raise has gone through.
  pub record Retrieved (s : GraphState) (u : Update) : Type 0 where
    pub message : Message
    pub hits : List MemoryHit
    pub texts : List Text
    pub is_last : get_last? s.messages ≡ some message
    pub found : visible_hits settings q store cx message.content ≡ ok hits
    pub packed : pack max_context_chars hits ≡ ok texts
    pub updates :
        u ≡ record no_update { retrieved_context = some texts; internal_logs = memory_done ∷ [] }

  pub retrieve-Retrieved :
      (s : GraphState) (u : Update)
      → retrieve_semantic_memories settings q store cx s ≡ ok u
      → Retrieved s u
  unfolding retrieve_semantic_memories
  retrieve-Retrieved s u h =
      let (m, last, after_last) = >>=-eq-ok (or_raise (get_last? s.messages) index_error) _ h in
      let (hits, found, after_hits) =
        >>=-eq-ok (visible_hits settings q store cx m.content) _ after_last in
      let (texts, packed, done) = >>=-eq-ok (pack max_context_chars hits) _ after_hits in
      record {
        message = m;
        is_last = last_of (get_last? s.messages) m last;
        hits = hits;
        texts = texts;
        found = found;
        packed = packed;
        updates = cc;
      }

  own_search :
      (query : Text) (hits : List MemoryHit) (db : Db)
      → is_admin settings cx.username ≡ false
      → cx.db ≡ some db
      → visible_hits settings q store cx query ≡ ok hits
      → search q query 2 (some (owned_thread_ids cx.username db)) store ≡ ok hits
  unfolding visible_hits allowed_threads
  own_search query hits db plain session h = ground arith

  -- A caller who is not the admin, in a run with a session and over a store that honours the filter of a
  -- query, retrieves facts from what one search with the last message finds among the facts of the threads
  -- that the caller owns: each hit stems from such a thread, and the texts are the longest prefix of
  -- the hits that fits the budget of 2000 characters.
  pub retrieved_from_owned :
      HonoursFilter q
      → (s : GraphState) (u : Update) (db : Db) → is_admin settings cx.username ≡ false
      → cx.db ≡ some db
      → retrieve_semantic_memories settings q store cx s ≡ ok u
      → (m : Message) × (hits : List MemoryHit) × (texts : List Text) × (get_last? s.messages
          ≡ some m)
        × (search q m.content 2 (some (owned_thread_ids cx.username db)) store ≡ ok hits)
        × (u.retrieved_context ≡ some texts)
        × All (λ h. hit_in (owned_thread_ids cx.username db) h ≡ true) hits
        × IsLongestPrefix max_context_chars hits texts
  retrieved_from_owned honours s u db plain session h =
      let r = retrieve-Retrieved s u h in
      let searched = own_search r.message.content r.hits db plain session r.found in
      (
        r.message,
        r.hits,
        r.texts,
        r.is_last,
        searched,
        rw r.updates,
        search-All-hit_in q honours r.message.content 2 (owned_thread_ids cx.username db) store
            r.hits searched,
        pack-IsLongestPrefix max_context_chars r.hits r.texts r.packed,
      )
