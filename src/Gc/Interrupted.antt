-- ===== src/Gc/Interrupted.antt =====
-- app/graph/gc.py: what a sweep leaves when the saver raises in its midst.
use agentic_enterprise.Base.{
  ℕ, ◌≡◌, refl, ◌∙◌, inl, inr, Bool, false, not, List, [], ◌∷◌, filter, All, All-filter, Text,
  Result-cases,
}
use agentic_enterprise.Gc.{
  Checkpoint, is_stale, thread_ids, find_stale_threads, Saver, delete_all, sweep,
}

-- The checkpoints of the threads that a test selects.
abbrev pub of_threads : (Text → Bool) → List Checkpoint → List Checkpoint
of_threads p rows = filter (λ r. p r.thread_id) rows

abbrev pub is_live : ℕ → ℕ → List Checkpoint → Text → Bool
is_live now retention_days rows t = not (is_stale now retention_days rows t)

-- What the saver documents of adelete_thread, also when it raises: it leaves other threads alone.
abbrev pub SparesOthers : Saver → Type 0
SparesOthers saver =
    (t : Text) (rows : List Checkpoint) (p : Text → Bool)
    → p t ≡ false
    → of_threads p (saver.adelete_thread t rows).1 ≡ of_threads p rows

module _ (saver : Saver) (spares : SparesOthers saver) where
  delete_all_spares :
      (p : Text → Bool) (ts : List Text) (rows : List Checkpoint)
      → All (λ t. p t ≡ false) ts
      → of_threads p (delete_all saver ts rows).1 ≡ of_threads p rows
  unfolding delete_all
  delete_all_spares p [] rows h = refl
  delete_all_spares p (t ∷ ts) rows h =
      let rest = (saver.adelete_thread t rows).1 in
      elim (Result-cases (saver.adelete_thread t rows).0) [
        | inl (e, failed) ↦ rw (failed, delete_all) (spares t rows p h.0)
        | inr (u, deleted) ↦
            rw (deleted, delete_all) (delete_all_spares p ts rest h.1 ∙ spares t rows p h.0)
      ]

  -- A sweep, also one in whose midst the saver raises, leaves every checkpoint of the threads that are
  -- not stale: those rows are the same, in the same order, after it, as long as the deletion of one
  -- thread leaves the others alone.
  pub sweep_spares_live_threads :
      (now retention_days : ℕ) (rows : List Checkpoint)
      → of_threads (is_live now retention_days rows) (sweep saver now retention_days rows).1
        ≡ of_threads (is_live now retention_days rows) rows
  unfolding sweep find_stale_threads
  sweep_spares_live_threads now retention_days rows = elim (Result-cases saver.connection) [
    | inl (e, down) ↦ rw (down, sweep) refl
    | inr (u, up) ↦
        rw (up, sweep)
          (delete_all_spares (is_live now retention_days rows)
            (find_stale_threads now retention_days rows) rows
            (All-filter _ (is_stale now retention_days rows) (thread_ids rows)
              (λ t stale. rw stale refl)))
  ]
