-- ===== src/Mcp/Oauth/SingleFlight.antt =====
-- app/mcp/oauth.py, value(): the interleavings of its callers.
use agentic_enterprise.Base.{ℕ, ◌+◌, ◌<◌, ◌≡◌, none, some, List, [], ◌∷◌, arith, ok, err}
use agentic_enterprise.Mcp.Oauth.{
  refresh_margin_s, Answer, idle, waiting, fetching, System, call, enter, answer, refresh, start,
  Step, calls, enters, answers, refreshes, Reach, here, next,
}

-- Who fetches holds the lock.
pub record IsGuarded (s : System) : Type 0 where
  pub holds : (i : ℕ) → s.phase i ≡ fetching → s.lock ≡ some i

call-IsGuarded :
    (s : System) (now i : ℕ) → s.phase i ≡ idle → IsGuarded s → IsGuarded (call now i s)
unfolding call
call-IsGuarded s now i h g = record { holds = λ j f. ground (arith, g.holds j) }

enter-IsGuarded :
    (s : System) (now i : ℕ)
    → s.phase i ≡ waiting
    → s.lock ≡ none
    → IsGuarded s
    → IsGuarded (enter now i s)
unfolding enter
enter-IsGuarded s now i h free g = record { holds = λ j f. ground (arith, g.holds j) }

answer-IsGuarded :
    (s : System) (now i : ℕ) (a : Answer)
    → s.phase i ≡ fetching
    → IsGuarded s
    → IsGuarded (answer now i a s)
unfolding answer
answer-IsGuarded s now i (ok fetched) h g = record {
  holds = λ j f. ground (arith, g.holds j, g.holds i h);
}
answer-IsGuarded s now i (err e) h g = record {
  holds = λ j f. ground (arith, g.holds j, g.holds i h);
}

refresh-IsGuarded : (s : System) → IsGuarded s → IsGuarded (refresh s)
unfolding refresh
refresh-IsGuarded s g = record { holds = λ j f. g.holds j f }

Step-IsGuarded : {s t : System} → Step s t → IsGuarded s → IsGuarded t
Step-IsGuarded {s} (calls now i h) g = call-IsGuarded s now i h g
Step-IsGuarded {s} (enters now i h free) g = enter-IsGuarded s now i h free g
Step-IsGuarded {s} (answers now i a h) g = answer-IsGuarded s now i a h g
Step-IsGuarded {s} refreshes g = refresh-IsGuarded s g

Reach-IsGuarded : {s t : System} → IsGuarded s → Reach s t → IsGuarded t
Reach-IsGuarded g here = g
Reach-IsGuarded g (next r st) = Step-IsGuarded st (Reach-IsGuarded g r)

start-IsGuarded : IsGuarded start
start-IsGuarded = record { holds = λ i f. cc }

-- In every interleaving of callers and forced refreshes, at most one caller fetches a token.
pub one_fetch_at_a_time :
    (s : System) → Reach start s → (i j : ℕ) → s.phase i ≡ fetching → s.phase j ≡ fetching → i ≡ j
one_fetch_at_a_time s r i j fi fj =
    let g = Reach-IsGuarded start-IsGuarded r in ground (arith, g.holds i fi, g.holds j fj)

-- The coroutines of a list get the lock one after the other, each at its time.
unfoldable pub enter_all : List (ℕ × ℕ) → System → System
enter_all [] s = s
enter_all ((now, i) ∷ rest) s = enter_all rest (enter now i s)

abbrev IsFreshFor : System → ℕ × ℕ → Type 0
IsFreshFor s w = w.0 + refresh_margin_s < s.token.expires_at
