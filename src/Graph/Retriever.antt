-- ===== src/Graph/Retriever.antt =====
-- `retrieve_semantic_memories`: past facts from the caller's own threads, within a budget.
use agentic_enterprise.Base.{
  ℕ, ◌-◌, ◌*◌, Option, none, some, List, [], ◌∷◌, ltb, if◌then◌else◌, length, get_last?, Text,
  index_error, attribute_error, type_error, Result, ok, ◌>>=◌, or_raise,
}
use agentic_enterprise.Settings.{Settings}
use agentic_enterprise.Database.{Db}
use agentic_enterprise.Ownership.{is_admin, owned_thread_ids}
use agentic_enterprise.Memory.{MemoryHit, Store, Qdrant, hit, search}
use agentic_enterprise.Graph.State.{memory_done, GraphState, Update, no_update, RuntimeContext}

abbrev pub chars_per_token_estimate : ℕ
chars_per_token_estimate = 4

abbrev pub max_context_tokens : ℕ
max_context_tokens = 500

abbrev pub max_context_chars : ℕ
max_context_chars = max_context_tokens * chars_per_token_estimate

-- The loop over the hits: stop at the first text that does not fit; a hit without text raises.
unfoldable pub pack : ℕ → List MemoryHit → Result (List Text)
pack budget [] = ok []
pack budget (hit ∷ hits) = do
  text ← or_raise hit.text type_error
  let rest = pack (budget - length text) hits
  if ltb budget (length text) then ok [] else (do texts ← rest; ok (text ∷ texts))

-- The runtime's session is None on a route that does not pass one.
unfoldable pub allowed_threads : Option Db → Text → Result (List Text)
allowed_threads db username = do
  session ← or_raise db attribute_error
  ok (owned_thread_ids username session)

unfoldable pub visible_hits :
    Settings → Qdrant → Store → RuntimeContext → Text → Result (List MemoryHit)
unfolding is_admin allowed_threads
visible_hits settings q store context query =
    if is_admin settings context.username then search q query 2 none store else (do
      allowed ← allowed_threads context.db context.username
      search q query 2 (some allowed) store)

unfoldable pub retrieve_semantic_memories :
    Settings → Qdrant → Store → RuntimeContext → GraphState → Result Update
retrieve_semantic_memories settings q store context state = do
  last ← or_raise (get_last? state.messages) index_error
  hits ← visible_hits settings q store context last.content
  texts ← pack max_context_chars hits
  ok (record no_update { retrieved_context = some texts; internal_logs = memory_done ∷ [] })
