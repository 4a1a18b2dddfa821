-- ===== src/Graph/Streams.antt =====
-- app/graph/engine.py: streamed runs, against runs that are not streamed.
use agentic_enterprise.Base.{ℕ, zero, suc, ◌≡◌, refl, List, map, Text, Result, ok, err, ◌>>=◌}
use agentic_enterprise.Graph.State.{GraphState}
use agentic_enterprise.Graph.Engine.{
  Node, node, finish, CompiledGraph, Target, Executor, FollowsGraph, ended,
}
use agentic_enterprise.Graph.Events.{Chunk, custom, Streamer, after_task, StreamsGraph}

module _ (e : Executor Node GraphState) (follows : FollowsGraph e) (st : Streamer)
    (streams : StreamsGraph st) (g : CompiledGraph Node GraphState)
    (write : Node → GraphState → List Text) where
  abbrev Agrees : ℕ → Type 0
  Agrees limit = (n : Node) (s : GraphState) → (st.astream g write limit n s).1 ≡ e.run g limit n s

  ends_at_target :
      (limit : ℕ) (n : Node) (written : List Chunk) (s' : GraphState) (t : Result (Target Node))
      → Agrees limit
      → (after_task st g write limit n written (t >>= λ t. ok (s', t))).1
        ≡ (t >>= λ t. elim t [ node m ↦ e.run g limit m s' | finish ↦ ended limit s' ])
  ends_at_target limit n written s' (err x) agrees = refl
  ends_at_target limit n written s' (ok finish) agrees = refl
  ends_at_target limit n written s' (ok (node m)) agrees = agrees m s'

  ends_at_step :
      (limit : ℕ) (n : Node) (written : List Chunk) (r : Result GraphState)
      → Agrees limit
      → (after_task st g write limit n written (r >>= λ s'. g.edge n s' >>= λ t. ok (s', t))).1 ≡ (
          r >>= λ s'.
          g.edge n s' >>= λ t. elim t [ node m ↦ e.run g limit m s' | finish ↦ ended limit s' ])
  ends_at_step limit n written (err x) agrees = refl
  ends_at_step limit n written (ok s') agrees =
      ends_at_target limit n written s' (g.edge n s') agrees

  -- A streamed run ends with the state, or the exception, that the run ends with when it is not
  -- streamed, whatever the nodes write.
  pub stream_ends_as_run :
      (limit : ℕ) (n : Node) (s : GraphState) → (st.astream g write limit n s).1 ≡ e.run g limit n s
  stream_ends_as_run zero n s = rw (streams.at_limit g write n s, follows.at_limit g n s) refl
  stream_ends_as_run (suc limit) n s = rw (streams.one_step g write limit n s) (
      rw (follows.one_step g limit n s)
        (ends_at_step limit n (map custom (write n s)) (g.step n s) (stream_ends_as_run limit)))
