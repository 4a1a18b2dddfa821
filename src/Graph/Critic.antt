-- ===== src/Graph/Critic.antt =====
-- `critic` and the edge behind it: grade the draft, stop or revise.
use agentic_enterprise.Base.{
  ℕ, Bool, ◌||◌, some, [], ◌∷◌, ltb, leb, if◌then◌else◌, length, get_last?, Text, codes, contains,
  key_error, index_error, Result, ok, ◌>>=◌, or_raise,
}
use agentic_enterprise.Graph.State.{critiqued, critic_verdict, GraphState, Update, no_update}
use agentic_enterprise.Graph.Workers.{pass_verdict}

abbrev pub general_revision_limit : ℕ
general_revision_limit = 3

unfoldable pub stub_verdict : Text
stub_verdict = codes "draft is a bare stub; add detail"

unfoldable pub revised_word : Text
revised_word = codes "revised"

-- "revised" in draft.lower() or len(draft) > 90
unfoldable pub passes : (Text → Text) → Text → Bool
passes lower draft = contains revised_word (lower draft) || ltb 90 (length draft)

unfoldable pub verdict : (Text → Text) → Text → ℕ → Text
unfolding pass_verdict stub_verdict
verdict lower draft count =
    if passes lower draft
    then pass_verdict
    else if leb general_revision_limit count
    then pass_verdict
    else stub_verdict

unfoldable pub critic : (Text → Text) → GraphState → Result Update
critic lower state = do
  last ← or_raise (get_last? state.messages) index_error
  count ← or_raise state.revision_count key_error
  let v = verdict lower last.content count
  ok (record no_update {
    critique = some v;
    status = some critiqued;
    internal_logs = critic_verdict count v ∷ [];
  })
