-- ===== src/Mcp/Oauth.antt =====
-- app/mcp/oauth.py: the cache of one client-credentials token, and the coroutines that share it.
pub mod SingleFlight
use agentic_enterprise.Base.{
  ℕ, ◌+◌, ◌≡◌, Bool, true, Option, none, some, leb, ◌==◌, if◌then◌else◌, Text, Exception, Result,
  ok, err,
}

abbrev pub refresh_margin_s : ℕ
refresh_margin_s = 60

-- A ClientCredentialsToken; times are in seconds, and 0 is its first `_expires_at`.
pub record Token : Type 0 where
  pub access_token : Option Text
  pub expires_at : ℕ

abbrev pub new_token : Token
new_token = record { access_token = none; expires_at = 0 }

-- `time.time() >= self._expires_at - REFRESH_MARGIN_S`, with the margin on the other side.
unfoldable pub is_stale : ℕ → Token → Bool
is_stale now token = elim token.access_token [
  | none ↦ true
  | some t ↦ leb token.expires_at (now + refresh_margin_s)
]

unfoldable pub force_refresh : Token → Token
force_refresh token = record token { access_token = none }

-- The answer of the token endpoint: a token with its lifetime, or what `_fetch` raises.
abbrev pub Answer : Type 0
Answer = Result (Text × ℕ)

-- The end of `_fetch`, at the time `now` of the answer.
unfoldable pub store : ℕ → Text × ℕ → Token → Token
store now (access_token, expires_in) token = record {
  access_token = some access_token;
  expires_at = now + expires_in;
}

-- Where a coroutine that has called `value()` stands, between two awaits.
pub data Phase : Type 0 where
  idle waiting fetching : Phase
  returned : Option Text → Phase
  raised : Exception → Phase

-- The shared token, the holder of its lock, the coroutines, and how many token POSTs were sent.
pub record System : Type 0 where
  pub token : Token
  pub lock : Option ℕ
  pub phase : ℕ → Phase
  pub posts : ℕ

abbrev pub update : (ℕ → Phase) → ℕ → Phase → ℕ → Phase
update f i p j = if i == j then p else f j

-- A coroutine calls `value()`: a fresh token is returned at once, else the coroutine waits.
unfoldable pub call : ℕ → ℕ → System → System
unfolding is_stale
call now i s =
    if is_stale now s.token
    then record s { phase = update s.phase i waiting }
    else record s { phase = update s.phase i (returned s.token.access_token) }

-- It gets the lock: it looks at the token again, and fetches one only if it is still stale.
unfoldable pub enter : ℕ → ℕ → System → System
unfolding is_stale
enter now i s =
    if is_stale now s.token
    then record s { lock = some i; phase = update s.phase i fetching; posts = s.posts + 1 }
    else record s { phase = update s.phase i (returned s.token.access_token) }

-- The endpoint answers: the token is stored and returned, or the error is raised; the lock is free.
unfoldable pub answer : ℕ → ℕ → Answer → System → System
unfolding store
answer now i (ok fetched) s =
    let token' = store now fetched s.token in
    record s {
      token = token';
      lock = none;
      phase = update s.phase i (returned token'.access_token);
    }
answer now i (err e) s = record s { lock = none; phase = update s.phase i (raised e) }

unfoldable pub refresh : System → System
unfolding force_refresh
refresh s = record s { token = force_refresh s.token }

abbrev pub start : System
start = record { token = new_token; lock = none; phase = λ i. idle; posts = 0 }

-- The event loop runs one coroutine up to its next await, in any order.
pub data Step (s : System) : System → Type 0 where
  calls : (now i : ℕ) → s.phase i ≡ idle → Step s (call now i s)
  enters : (now i : ℕ) → s.phase i ≡ waiting → s.lock ≡ none → Step s (enter now i s)
  answers : (now i : ℕ) (a : Answer) → s.phase i ≡ fetching → Step s (answer now i a s)
  refreshes : Step s (refresh s)

pub data Reach (s : System) : System → Type 0 where
  here : Reach s s
  next : {t u : System} → Reach s t → Step t u → Reach s u
