-- ===== src/Schemas.antt =====
-- app/schemas/agent_schema.py: the schemas and the constraints that Pydantic checks on them.
use agentic_enterprise.Base.{
  ℕ, Bool, true, false, ◌&&◌, ◌||◌, Option, List, [], ◌∷◌, leb, ◌==◌, if◌then◌else◌, length, Text,
  validation_error, Result, ok, err,
}

-- Python's int.
pub data ℤ : Type 0 where
  pos : ℕ → ℤ
  negsuc : ℕ → ℤ

-- Field(ge=lo, le=hi)
unfoldable pub within : ℕ → ℕ → ℤ → Bool
within lo hi (pos n) = leb lo n && leb n hi
within lo hi (negsuc n) = false

-- Field(min_length=lo, max_length=hi)
unfoldable pub sized {ℓ} : {A : Type ℓ} → ℕ → ℕ → List A → Bool
sized lo hi xs = leb lo (length xs) && leb (length xs) hi

-- The characters of ^[a-zA-Z0-9_-]+$.
unfoldable pub is_slug_char : ℕ → Bool
is_slug_char c =
    leb b'a' c && leb c b'z'
    || leb b'A' c && leb c b'Z'
    || leb b'0' c && leb c b'9'
    || c == b'_'
    || c == b'-'

unfoldable pub all_slug : Text → Bool
unfolding is_slug_char
all_slug [] = true
all_slug (c ∷ s) = is_slug_char c && all_slug s

unfoldable pub is_slug : Text → Bool
unfolding all_slug
is_slug [] = false
is_slug (c ∷ s) = all_slug (c ∷ s)

pub record AgentRequest : Type 0 where
  pub request_id : Text
  pub conversation_id : Option Text
  pub task_description : Text
  pub agent_id : Text
  pub priority : ℤ

-- What Pydantic checks of an AgentRequest beyond the types of its fields.
unfoldable pub validate_request : AgentRequest → Result AgentRequest
unfolding sized is_slug within
validate_request r =
    if sized 10 500 r.task_description && is_slug r.agent_id && within 1 5 r.priority
    then ok r
    else err validation_error

pub data Sentiment : Type 0 where
  bullish bearish neutral : Sentiment

pub record InvestmentAnalysis : Type 0 where
  pub ticker : Text
  pub sentiment : Sentiment
  pub risk_score : ℤ
  pub key_drivers : List Text
  pub compliance_check : Bool

unfoldable pub validate_analysis : InvestmentAnalysis → Result InvestmentAnalysis
unfolding within
validate_analysis a =
    if within 1 10 a.risk_score && leb 3 (length a.key_drivers) then ok a else err validation_error

-- `confidence` is a double, given by its bits.
pub record ResearchReport : Type 0 where
  pub topic : Text
  pub summary : Text
  pub sources_consulted : List Text
  pub confidence : ℕ

-- Field(ge=0.0, le=1.0): the bits of 0.0 to 1.0, which are in their order, and those of -0.0.
unfoldable pub is_fraction : ℕ → Bool
is_fraction bits = leb bits 0x3ff0000000000000 || bits == 0x8000000000000000

unfoldable pub validate_report : ResearchReport → Result ResearchReport
unfolding is_fraction
validate_report r =
    if leb 20 (length r.summary) && is_fraction r.confidence then ok r else err validation_error

pub record ResearchRequest : Type 0 where
  pub topic : Text
  pub thread_id : Text

unfoldable pub validate_research : ResearchRequest → Result ResearchRequest
unfolding sized
validate_research r = if sized 3 500 r.topic then ok r else err validation_error
