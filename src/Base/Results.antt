-- ===== src/Base/Results.antt =====
-- The exceptions that the code raises or handles, and calls that may raise one.
use Prim.Native.Nat.{ℕ}
use mathlib.Core.Path.{◌≡◌, refl}
use mathlib.Core.Logic.{◌⊎◌, inl, inr}
use mathlib.Core.Bool.{Bool, true, false}
use mathlib.Core.Option.{Option, none, some}
use mathlib.Core.List.{List}

-- What the code passes as `details` of its own exceptions.
pub data Details : Type 0 where
  topic source agent_id limit : List ℕ → Details
  errors : List (List ℕ) → Details

-- `max_recursion_error` carries its details, `http_exception` is FastAPI's HTTPException with its status code, `http_error` is httpx's
-- HTTPError, `failure` any other exception of a service that the code calls.
pub data Exception : Type 0 where
  key_error index_error attribute_error type_error value_error : Exception
  validation_error invalid_token_error graph_recursion_error : Exception
  max_recursion_error : Option Details → Exception
  agentic_exception http_error timeout_error failure : Exception
  http_exception : ℕ → Exception

pub data Result {ℓ} (A : Type ℓ) : Type ℓ where
  err : Exception → Result A
  ok : A → Result A

abbrev pub is_ok {ℓ} : {A : Type ℓ} → Result A → Bool
is_ok (err e) = false
is_ok (ok value) = true

-- `d[k]` and `xs[i]`: a missing item raises.
abbrev pub or_raise {ℓ} : {A : Type ℓ} → Option A → Exception → Result A
or_raise none e = err e
or_raise (some value) e = ok value

infixl 5 ◌>>=◌ ◌>>◌
-- What follows a call runs when the call returns.
abbrev pub ◌>>=◌ {ℓ κ} : {A : Type ℓ} {B : Type κ} → Result A → (A → Result B) → Result B
call >>= next = elim call [ err e ↦ err e | ok value ↦ next value ]

abbrev pub ◌>>◌ {ℓ} : {B : Type ℓ} → Result (Unit {0}) → Result B → Result B
call >> next = elim call [ err e ↦ err e | ok u ↦ next ]

pub >>=-eq-ok {ℓ κ} :
    {A : Type ℓ} {B : Type κ} (call : Result A) (next : A → Result B) {result : B}
    → (call >>= next) ≡ ok result
    → (value : A) × (call ≡ ok value) × (next value ≡ ok result)
>>=-eq-ok (err e) next h = cc
>>=-eq-ok (ok value) next h = (value, refl, h)

pub >>-eq-ok {ℓ} :
    {B : Type ℓ} (call : Result (Unit {0})) (next : Result B) {result : B}
    → (call >> next) ≡ ok result
    → next ≡ ok result
>>-eq-ok (err e) next h = cc
>>-eq-ok (ok u) next h = h

pub Result-cases {ℓ} :
    {A : Type ℓ} (r : Result A) → ((e : Exception) × (r ≡ err e)) ⊎ ((a : A) × (r ≡ ok a))
Result-cases (ok a) = inr (a, refl)
Result-cases (err e) = inl (e, refl)

-- A call that always raises.
abbrev pub Raises {ℓ} : {A : Type ℓ} → Result A → Type ℓ
Raises r = (e : Exception) × (r ≡ err e)

pub >>=-Raises {ℓ κ} :
    {A : Type ℓ} {B : Type κ} (call : Result A) (next : A → Result B)
    → ((value : A) → Raises (next value))
    → Raises (call >>= next)
>>=-Raises (ok value) next h = h value
>>=-Raises (err e) next h = (e, refl)
