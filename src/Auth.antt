-- ===== src/Auth.antt =====
-- app/core/security.py and app/api/v1/auth.py: passwords, access tokens, and the current user.
pub mod Login
use agentic_enterprise.Base.{
  ℕ, ◌+◌, ◌*◌, Bool, false, not, ◌&&◌, Option, none, some, [], ◌∷◌, ◌==◌, if◌then◌else◌, Text,
  codes, text_eq, Dict, lookup, insert, invalid_token_error, http_exception, Result, ok, err, ◌>>=◌,
  ◌>>◌,
}
use agentic_enterprise.Settings.{Settings}
use agentic_enterprise.Database.{Session}
use agentic_enterprise.Ownership.{claim_or_check}

-- The claims of an access token.
pub record Claims : Type 0 where
  pub sub : Option Text
  pub exp : ℕ

-- The libraries behind security.py: pwdlib's hasher, and PyJWT under the configured secret. Times
-- are in seconds.
pub record Crypto : Type 0 where
  pub hash : Text → Text
  pub verify : Text → Text → Bool
  pub encode : Claims → Text
  pub decode : ℕ → Text → Result Claims

pub record User : Type 0 where
  pub username : Text
  pub hashed_password : Text

-- `if not subject` is true of None and of "".
unfoldable pub subject_of : Option Text → Result Text
subject_of none = err invalid_token_error
subject_of (some []) = err invalid_token_error
subject_of (some (c ∷ s)) = ok (c ∷ s)

-- auth.partition(" "), as the scheme and the token.
unfoldable pub partition : Text → Text × Text
partition [] = ([], [])
partition (c ∷ s) =
    let (scheme, token) = partition s in if c == 32 then ([], s) else (c ∷ scheme, token)

-- The bucket of a request without a usable token.
abbrev pub client_key : Option Text → Text
client_key none = codes "anonymous"
client_key (some host) = host

-- 403 unless the caller may act on the thread; an unowned thread is claimed.
unfoldable pub require_thread_owner : Settings → Text → Text → Session Text
unfolding claim_or_check
require_thread_owner settings thread_id username db =
    let (allowed, db') = claim_or_check settings thread_id username db in
    elim allowed [
      | ok may_act ↦ (if may_act then ok username else err (http_exception 403), db')
      | err e ↦ (err e, db')
    ]

module _ (crypto : Crypto) (settings : Settings) where
  -- One entry of `_seed_users`: only if the password is set.
  unfoldable pub seed_user : Text → Text → Dict User → Dict User
  seed_user name [] users = users
  seed_user name (c ∷ password) users =
      insert name (record { username = name; hashed_password = crypto.hash (c ∷ password) }) users

  unfoldable pub seed_users : Dict User
  unfolding seed_user
  seed_users =
      seed_user settings.demo2_username settings.demo2_password
        (seed_user settings.demo_username settings.demo_password [])

  unfoldable pub create_access_token : ℕ → Text → Text
  create_access_token now subject =
      crypto.encode (record { sub = some subject; exp = now + settings.jwt_expire_minutes * 60 })

  unfoldable pub decode_subject : ℕ → Text → Result Text
  unfolding subject_of
  decode_subject now token = do payload ← crypto.decode now token; subject_of payload.sub

  unfoldable pub check_password : Option User → Text → Bool
  check_password none password = false
  check_password (some user) password = crypto.verify password user.hashed_password

  -- The route's body after the lookup: the token is for the user's own name.
  unfoldable pub grant : ℕ → Option User → Text → Result Text
  unfolding check_password create_access_token
  grant now none password = err (http_exception 401)
  grant now (some user) password =
      if check_password (some user) password
      then ok (create_access_token now user.username)
      else err (http_exception 401)

  unfoldable pub login : ℕ → Text → Text → Result Text
  unfolding grant seed_users
  login now username password = grant now (lookup username seed_users) password

  -- `except jwt.InvalidTokenError: raise _credentials_error`; any other exception passes.
  unfoldable pub credentials : Result Text → Result Text
  credentials (ok username) = elim (lookup username seed_users) [
    | none ↦ err (http_exception 401)
    | some _ ↦ ok username
  ]
  credentials (err invalid_token_error) = err (http_exception 401)
  credentials (err e) = err e

  unfoldable pub get_current_user : ℕ → Text → Result Text
  unfolding credentials decode_subject
  get_current_user now token = credentials (decode_subject now token)

  -- The rate-limit bucket, by the Authorization header ("" if absent) and the client's address.
  unfoldable pub user_key : (Text → Text) → ℕ → Text → Option Text → Result Text
  unfolding partition decode_subject
  user_key lower now header client =
      let (scheme, token) = partition header in
      if text_eq (lower scheme) (codes "bearer") && not (text_eq token [])
      then elim (decode_subject now token) [
        | ok subject ↦ ok subject
        | err e ↦ elim e [ invalid_token_error ↦ ok (client_key client) | other ↦ err other ]
      ]
      else ok (client_key client)
