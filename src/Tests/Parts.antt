-- ===== src/Tests/Parts.antt =====
-- Small instances of what the program takes from outside, for the examples.
use agentic_enterprise.Base.{
  ℕ, zero, suc, ◌+◌, ◌≡◌, refl, Bool, true, ◌&&◌, Option, none, some, [], ◌∷◌, ◌++◌, map, leb,
  if◌then◌else◌, length, filter, All-filter, Text, codes, text_eq, text_eq_iff, text_eq_refl,
  invalid_token_error, graph_recursion_error, Result, err, ok, ◌>>=◌,
}
use agentic_enterprise.Settings.{Settings, defaults}
use agentic_enterprise.Database.{ThreadOwnership, Db}
use agentic_enterprise.Schemas.{pos, neutral}
use agentic_enterprise.Memory.{Point, StoredPoint, Store, matches, Qdrant}
use agentic_enterprise.Memory.Isolation.{HonoursFilter}
use agentic_enterprise.Messages.{ai, Message, human_message, ChatModel}
use agentic_enterprise.Graph.State.{GraphState, RuntimeContext, initial_state}
use agentic_enterprise.Graph.Engine.{
  ended, node, finish, Services, CompiledGraph, Executor, FollowsGraph,
}
use agentic_enterprise.Graph.Revision.{Replies, Appends}
use agentic_enterprise.Auth.{Claims, Crypto}
use agentic_enterprise.Auth.Login.{IsSound}

-- An executor.
unfoldable pub drive : {N S : Type 0} → CompiledGraph N S → ℕ → N → S → Result S
drive g zero n s = err graph_recursion_error
drive g (suc limit) n s = g.step n s >>= λ s'.
    g.edge n s' >>= λ t. elim t [ node m ↦ drive g limit m s' | finish ↦ ended limit s' ]

abbrev pub driver : {N S : Type 0} → Executor N S
driver = record { run = drive }

pub driver-FollowsGraph : {N S : Type 0} → FollowsGraph {N = N} {S = S} driver
unfolding drive
driver-FollowsGraph = record { at_limit = λ g n s. refl; one_step = λ g limit n s. refl }

-- A vector store that answers a query with every point that passes its filter.
abbrev point_of : StoredPoint → Point
point_of p = record { score = 0; payload = p.payload }

abbrev pub qdrant : Qdrant
qdrant = record {
  aembed_query = λ text. ok (length text ∷ []);
  query_points = λ c v limit ids. ok (filter (λ p. matches ids p.payload) (map point_of c.points));
  upsert = λ p c. ok (record c { points = c.points ++ p ∷ [] });
}

pub qdrant-HonoursFilter : HonoursFilter qdrant
qdrant-HonoursFilter = record {
  filtered = λ c v limit ids points e.
      let found : filter (λ p. matches ids p.payload) (map point_of c.points) ≡ points = cc in
      rw (← found) (
        All-filter (λ p. matches ids p.payload ≡ true) (λ p. matches ids p.payload)
          (map point_of c.points) (λ p passes. passes));
}

abbrev pub stored : Text → Text → StoredPoint
stored thread_id text = record {
  id = text;
  vector = 1 ∷ [];
  payload = record { text = some text; thread_id = some thread_id };
}

abbrev pub memories : Store
memories = some (record {
  size = 1;
  points = stored (codes "t1") (codes "likes tea") ∷ stored (codes "t2") (codes "secret") ∷ [];
})

abbrev pub ai_message : Text → Message
ai_message content = record { role = ai; content = content; tool_calls = [] }

-- A model that gives the same short answer to every call.
abbrev pub llm : ChatModel
llm = record {
  ainvoke = λ ms. ok (ai_message (codes "fine"));
  ainvoke_metrics_tool = λ ms. ok (ai_message []);
  ainvoke_analysis = λ m. ok (record {
    ticker = m.ticker;
    sentiment = neutral;
    risk_score = pos 5;
    key_drivers = [];
    compliance_check = Bool.true;
  });
  ainvoke_report =
      λ text. ok (record { topic = text; summary = text; sources_consulted = []; confidence = 0 });
}

pub llm-Replies : Replies llm
llm-Replies ms = (ai_message (codes "fine"), refl)

-- str.lower on ASCII.
abbrev lower_char : ℕ → ℕ
lower_char c = if leb b'A' c && leb c b'Z' then c + 32 else c

abbrev pub lower : Text → Text
lower text = map lower_char text

abbrev pub services : Services
services = record {
  lower = lower;
  settings = defaults;
  qdrant = qdrant;
  memories = memories;
  add_messages = λ old new. old ++ new;
  run_tools = λ ms. ok [];
  tools_condition = λ ms. Bool.false;
}

pub services-Appends : Appends services
services-Appends old new = refl

abbrev pub row : Text → Text → ThreadOwnership
row thread_id owner = record { thread_id = thread_id; owner_username = owner }

-- "someone-else" owns t1, and nobody owns t3.
abbrev pub user : Text
user = codes "someone-else"

abbrev pub db : Db
db = record {
  executions = [];
  ownership = row (codes "t1") user ∷ row (codes "t2") (codes "third") ∷ [];
}

abbrev pub context : RuntimeContext
context = record { llm = llm; tool_llm = some llm; db = some db; username = user }

abbrev pub start : GraphState
start = initial_state (human_message (codes "hello there") ∷ [])

-- Tokens that spell their claims out, and passwords that are their own hash.
abbrev pub encode : Claims → Text
encode claims = elim claims.sub [ none ↦ claims.exp ∷ [] | some s ↦ claims.exp ∷ 1 ∷ s ]

abbrev not_expired : ℕ → Claims → Result Claims
not_expired now claims = if leb claims.exp now then err invalid_token_error else ok claims

abbrev pub decode : ℕ → Text → Result Claims
decode now [] = err invalid_token_error
decode now (exp ∷ []) = not_expired now (record { sub = none; exp = exp })
decode now (exp ∷ c ∷ s) = not_expired now (record { sub = some s; exp = exp })

abbrev pub crypto : Crypto
crypto = record {
  hash = λ password. password;
  verify = λ password hash. text_eq password hash;
  encode = encode;
  decode = decode;
}

decode-encode :
    (now : ℕ) (sub : Option Text) (exp : ℕ)
    → decode now (encode (record { sub = sub; exp = exp }))
      ≡ not_expired now (record { sub = sub; exp = exp })
decode-encode now none exp = refl
decode-encode now (some s) exp = refl

pub crypto-IsSound : IsSound crypto
crypto-IsSound = record {
  decodes = λ now claims. decode-encode now claims.sub claims.exp;
  verifies = λ password. text_eq_refl password;
  rejects = λ password other e. (text_eq_iff other password).0 e;
}

abbrev pub settings : Settings
settings = record defaults { demo2_password = codes "pw" }
