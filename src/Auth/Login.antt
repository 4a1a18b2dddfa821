-- ===== src/Auth/Login.antt =====
-- app/api/v1/auth.py and app/core/security.py: from the password to the token and back to the user.
use agentic_enterprise.Base.{
  ℕ, ◌+◌, ◌*◌, ◌≡◌, refl, sym, ◌∙◌, inl, inr, Bool, true, false, not, ◌&&◌, Option, none, some, [],
  ◌∷◌, arith, leb, if◌then◌else◌, Bool-cases, Option-cases, Text, text_eq, text_eq_iff,
  text_eq_refl, Dict, lookup, lookup-insert, invalid_token_error, http_exception, ok, err,
}
use agentic_enterprise.Settings.{Settings}
use agentic_enterprise.Auth.{
  Claims, Crypto, User, subject_of, seed_user, seed_users, create_access_token, decode_subject,
  login, credentials, get_current_user,
}

-- What PyJWT and pwdlib document: a token decodes to its claims until it expires, and a password is
-- verified against its own hash and no other.
pub record IsSound (crypto : Crypto) : Type 0 where
  pub decodes :
      (now : ℕ) (claims : Claims)
      → crypto.decode now (crypto.encode claims)
        ≡ (if leb claims.exp now then err invalid_token_error else ok claims)
  pub verifies : (password : Text) → crypto.verify password (crypto.hash password) ≡ true
  pub rejects :
      (password other : Text) → crypto.verify other (crypto.hash password) ≡ true → other ≡ password

module _ (crypto : Crypto) (sound : IsSound crypto) (settings : Settings) where
  decode_own_token :
      (now later : ℕ) (c : ℕ) (name : Text)
      → decode_subject crypto settings later (create_access_token crypto settings now (c ∷ name))
        ≡ (if leb (now + settings.jwt_expire_minutes * 60) later
            then err invalid_token_error
            else ok (c ∷ name))
  unfolding decode_subject create_access_token
  decode_own_token now later c name =
      rw (sound.decodes later _)
        (elim (Bool-cases (leb (now + settings.jwt_expire_minutes * 60) later)) [
          | inl expired ↦ rw expired
          | inr valid ↦ rw valid (unfold subject_of in refl)
        ])

  -- The password that a user name is seeded with: the second demo user's entry is written last.
  abbrev pub password_of : Text → Option Text
  password_of name =
      if text_eq settings.demo2_username name && not (text_eq settings.demo2_password [])
      then some settings.demo2_password
      else if text_eq settings.demo_username name && not (text_eq settings.demo_password [])
      then some settings.demo_password
      else none

  abbrev user_for : Text → Option Text → Option User
  user_for name none = none
  user_for name (some password) =
      some (record { username = name; hashed_password = crypto.hash password })

  lookup-seed_user :
      (name other password : Text) (users : Dict User)
      → lookup other (seed_user crypto settings name password users) ≡ (
          if text_eq name other && not (text_eq password [])
          then user_for other (some password)
          else lookup other users)
  unfolding seed_user text_eq
  lookup-seed_user name other [] users = ground arith
  lookup-seed_user name other (c ∷ password) users = ground (
    arith,
    lookup-insert name other
        (record { username = name; hashed_password = crypto.hash (c ∷ password) }) users,
    text_eq_iff name other,
  )

  lookup-seed_users :
      (name : Text) → lookup name (seed_users crypto settings) ≡ user_for name (password_of name)
  unfolding seed_users lookup
  lookup-seed_users name = ground (
    arith,
    lookup-seed_user name name [] [],
    lookup-seed_user settings.demo2_username name settings.demo2_password
        (seed_user crypto settings settings.demo_username settings.demo_password []),
    lookup-seed_user settings.demo_username name settings.demo_password [],
  )

  login_of_user :
      (now : ℕ) (name password seeded : Text)
      → password_of name ≡ some seeded
      → login crypto settings now name password ≡ (
          if crypto.verify password (crypto.hash seeded)
          then ok (create_access_token crypto settings now name)
          else err (http_exception 401))
  unfolding login
  login_of_user now name password seeded h = rw (lookup-seed_users name) (rw h refl)

  login_of_stranger :
      (now : ℕ) (name password : Text)
      → password_of name ≡ none
      → login crypto settings now name password ≡ err (http_exception 401)
  unfolding login
  login_of_stranger now name password h = rw (lookup-seed_users name) (rw h refl)

  abbrev pub is_password : Option Text → Text → Bool
  is_password none password = false
  is_password (some seeded) password = text_eq seeded password

  verify_hash :
      (seeded password : Text)
      → crypto.verify password (crypto.hash seeded) ≡ text_eq seeded password
  verify_hash seeded password = elim (Bool-cases (crypto.verify password (crypto.hash seeded))) [
    | inl right ↦
        let same : password ≡ seeded = sound.rejects seeded password right in
        rw same (sound.verifies seeded ∙ sym (text_eq_refl seeded))
    | inr wrong ↦ elim (Bool-cases (text_eq seeded password)) [
      | inl equal ↦
          let same : seeded ≡ password = (text_eq_iff seeded password).0 equal in
          absurd (ground (arith, wrong, sound.verifies password, same))
      | inr other ↦ wrong ∙ sym other
    ]
  ]

  -- With a sound hasher, a login succeeds exactly with the name and the password of a seeded user; every other login
  -- gets the same 401, whether the name or the password is wrong.
  pub login_lem :
      (now : ℕ) (name password : Text)
      → login crypto settings now name password ≡ (
          if is_password (password_of name) password
          then ok (create_access_token crypto settings now name)
          else err (http_exception 401))
  login_lem now name password = elim (Option-cases (password_of name)) [
    | inl stranger ↦ rw (login_of_stranger now name password stranger) (rw stranger refl)
    | inr (seeded, e) ↦
        rw (login_of_user now name password seeded e) (rw (verify_hash seeded password) (rw e refl))
  ]

  credentials_of_user :
      (name password : Text)
      → password_of name ≡ some password
      → credentials crypto settings (ok name) ≡ ok name
  unfolding credentials
  credentials_of_user name password h = rw (lookup-seed_users name, credentials) (rw h)

  -- With sound tokens and hashes, a seeded user whose name is not empty and who logs in holds a token that stands for them until it expires, and gets a 401
  -- from then on.
  pub login-get_current_user :
      (now later c : ℕ) (name password : Text)
      → password_of (c ∷ name) ≡ some password
      → (token : Text) × (login crypto settings now (c ∷ name) password ≡ ok token)
        × (get_current_user crypto settings later token ≡ (
            if leb (now + settings.jwt_expire_minutes * 60) later
            then err (http_exception 401)
            else ok (c ∷ name)))
  unfolding get_current_user
  login-get_current_user now later c name password h = (
    create_access_token crypto settings now (c ∷ name),
    login_lem now (c ∷ name) password ∙ rw h (rw (text_eq_refl password) refl),
    rw (decode_own_token now later c name)
        (elim (Bool-cases (leb (now + settings.jwt_expire_minutes * 60) later)) [
          | inl expired ↦ rw expired
          | inr valid ↦ rw valid (credentials_of_user (c ∷ name) password h)
        ]),
  )
