-- ===== src/Tests/Tokens.antt =====
-- Two callers that wait for one token.
use agentic_enterprise.Base.{ℕ, ◌≡◌, refl, codes, ok}
use agentic_enterprise.Mcp.Oauth.{
  is_stale, System, call, enter, answer, start, calls, enters, Reach, here, next,
}
use agentic_enterprise.Mcp.Oauth.SingleFlight.{one_fetch_at_a_time}

abbrev one_fetches : System
one_fetches = enter 10 1 (call 10 2 (call 10 1 start))

one_fetches_is_reached : Reach start one_fetches
unfolding call enter is_stale
one_fetches_is_reached =
    next (next (next here (calls 10 1 refl)) (calls 10 2 refl)) (enters 10 1 refl refl)

one_fetch_at_a_time_example : ◌≡◌ {A = ℕ} 1 1
unfolding call enter is_stale
one_fetch_at_a_time_example = one_fetch_at_a_time one_fetches one_fetches_is_reached 1 1 refl refl

abbrev answered : System
answered = answer 11 1 (ok (codes "tok", 3600)) one_fetches
