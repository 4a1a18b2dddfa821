-- ===== src/Tests/Tenants.antt =====
-- Owners, logins, memories, retention and branches.
use agentic_enterprise.Base.{
  ◌+◌, ◌*◌, ◌≡◌, refl, ◌∙◌, inl, inr, Bool, true, false, not, List, [], ◌∷◌, arith, leb,
  if◌then◌else◌, Bool-cases, filter, filter-filter, filter_congr, All-intro, Text, codes, text_eq,
  text_eq_iff, failure, http_exception, err, ok,
}
use agentic_enterprise.Ownership.{owner_of, insert_owner, is_owner}
use agentic_enterprise.Ownership.Claims.{here, after, first_claim_wins}
use agentic_enterprise.Auth.{create_access_token, login, get_current_user}
use agentic_enterprise.Auth.Login.{password_of, is_password, login_lem, login-get_current_user}
use agentic_enterprise.Gc.{Checkpoint, Saver, sweep}
use agentic_enterprise.Gc.Interrupted.{of_threads, is_live, SparesOthers, sweep_spares_live_threads}
use agentic_enterprise.Gc.Retention.{DeletesThread}
use agentic_enterprise.Tests.Parts.{user, db, crypto, crypto-IsSound, settings}

first_claim_wins_example :
    is_owner
      (owner_of
        (codes "t3")
        (insert_owner (codes "t3") (codes "late") (insert_owner (codes "t3") user db.ownership)))
      (codes "late")
    ≡ text_eq user (codes "late")
unfolding owner_of text_eq
first_claim_wins_example =
    first_claim_wins (codes "t3") user (codes "late") db.ownership
      (insert_owner (codes "t3") (codes "late") (insert_owner (codes "t3") user db.ownership)) refl
      (after (codes "t3") (codes "late") here)

login_lem_example : login crypto settings 100 user (codes "pw") ≡ (
    if is_password crypto crypto-IsSound settings
      (password_of crypto crypto-IsSound settings user)
      (codes "pw")
    then ok (create_access_token crypto settings 100 user)
    else err (http_exception 401))
login_lem_example = login_lem crypto crypto-IsSound settings 100 user (codes "pw")

login-get_current_user_example :
    (token : Text) × (login crypto settings 100 user (codes "pw") ≡ ok token)
    × (get_current_user crypto settings 200 token ≡ (
        if leb (100 + settings.jwt_expire_minutes * 60) 200
        then err (http_exception 401)
        else ok user))
unfolding text_eq
login-get_current_user_example =
    login-get_current_user crypto crypto-IsSound settings 100 200 b's' (codes "omeone-else")
      (codes "pw") refl

abbrev pub saver : Saver
saver = record {
  connection = ok tt;
  adelete_thread = λ t rows. (ok tt, filter (λ r. not (text_eq r.thread_id t)) rows);
}

pub saver-DeletesThread : DeletesThread saver
saver-DeletesThread = record { connects = refl; deletes = λ t rows. refl }

abbrev pub checkpoints : List Checkpoint
checkpoints =
    record { thread_id = codes "old"; ts = 5 }
    ∷ record { thread_id = codes "new"; ts = 100_000 }
    ∷ []

-- A saver that is cut off after it has deleted.
abbrev cut_off : Saver
cut_off = record {
  connection = ok tt;
  adelete_thread = λ t rows. (err failure, filter (λ r. not (text_eq r.thread_id t)) rows);
}

unstale : (p : Text → Bool) (t : Text) → p t ≡ false → (s : Text) → p s ≡ true → text_eq s t ≡ false
unstale p t h s g = elim (Bool-cases (text_eq s t)) [
  | inr other ↦ other
  | inl same ↦ let e = (text_eq_iff s t).0 same in absurd (cc)
]

cut_off-SparesOthers : SparesOthers cut_off
cut_off-SparesOthers t rows p h =
    filter-filter (λ r. p r.thread_id) (λ r. not (text_eq r.thread_id t)) rows
    ∙ filter_congr _ _ rows (
        All-intro _ rows (λ r. elim (Bool-cases (p r.thread_id)) [
          | inl g ↦ rw (unstale p t h r.thread_id g, g) refl
          | inr g ↦ ground (arith, g)
        ]))

sweep_spares_live_threads_example :
    of_threads (is_live 100_000 1 checkpoints) (sweep cut_off 100_000 1 checkpoints).1
    ≡ of_threads (is_live 100_000 1 checkpoints) checkpoints
sweep_spares_live_threads_example =
    sweep_spares_live_threads cut_off cut_off-SparesOthers 100_000 1 checkpoints
