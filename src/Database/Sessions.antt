-- ===== src/Database/Sessions.antt =====
-- app/database.py: get_db round a dependency and a handler.
use agentic_enterprise.Base.{◌≡◌, ap, ◌∙◌, Result, ok, err}
use agentic_enterprise.Database.{Db, Session, ◌>>=◌, lift, get_db}

-- A dependency that passes, then a handler that leaves the session alone and returns.
pub commit_lift :
    {A B : Type 0} (m : Session B) (f : B → Result A) (db db' : Db) (b : B) (a : A)
    → m db ≡ (ok b, db')
    → f b ≡ ok a
    → get_db (m >>= λ b. lift (f b)) db ≡ (ok a, db')
unfolding get_db
commit_lift {A} {B} m f db db' b a passed returned =
    let close : Result A × Db → Result A × Db =
      λ q. elim q.0 [ ok a ↦ (ok a, q.1) | err e ↦ (err e, db) ] in
    let first : Result B × Db → Result A × Db =
      λ p. elim p.0 [ ok b ↦ (f b, p.1) | err e ↦ (err e, p.1) ] in
    ap (λ p. close (first p)) passed ∙ ap (λ r. close (r, db')) returned
