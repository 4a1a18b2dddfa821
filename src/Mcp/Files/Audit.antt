-- ===== src/Mcp/Files/Audit.antt =====
-- app/mcp/fs_server.py: files and audit rows, before and after a call.
use agentic_enterprise.Database.{FileAuditEvent}
use agentic_enterprise.Database.Columns.{Postgres, file_audit_row, insert_row}
use agentic_enterprise.Database.Rows.{
  is_storable, max_integer, HonoursColumns, insert_row-Raises, insert_row_stores,
  file_audit_row_fits, file_audit_row-Raises,
}
use agentic_enterprise.Mcp.Files.{
  encoded_length, FileSystem, Server, preview_chars, event_of, checked_size, write_target,
  write_action, write_text_file,
}
use agentic_enterprise.Base.{
  ℕ, ◌≤◌, ◌≡◌, refl, sym, ◌⊎◌, inl, inr, true, false, none, [], ◌∷◌, ◌++◌, arith, length, take,
  Text, Exception, Result, err, ok, >>=-eq-ok, Result-cases,
}
use agentic_enterprise.Mcp.Paths.{AbsolutePath, resolve_in_root}

module _ {F : Type 0} (fs : FileSystem F) (max_write_bytes : ℕ) (pg : Postgres) where
  -- What has been checked when the write begins.
  pub record Accepted (path content : Text) (s : Server F) (target : AbsolutePath) (bytes : ℕ)
      : Type 0 where
    pub size : encoded_length content ≡ ok bytes
    pub within_limit : bytes ≤ max_write_bytes
    pub jailed : resolve_in_root (fs.readlink s.files) fs.links fs.root path ≡ ok target

  abbrev pub row_for : Text → Text → Server F → AbsolutePath → ℕ → FileAuditEvent
  row_for path content s target bytes =
      event_of fs max_write_bytes pg path (write_action fs max_write_bytes pg target s) bytes
        content

  fits_limit :
      (size : ℕ) {u : Unit {0}}
      → checked_size fs max_write_bytes pg size ≡ ok u
      → size ≤ max_write_bytes
  fits_limit size h = ground arith

  write_target-Accepted :
      (path content : Text) (s : Server F) (bytes : ℕ) (target : AbsolutePath)
      → write_target fs max_write_bytes pg path content s ≡ ok (bytes, target)
      → Accepted path content s target bytes
  unfolding write_target
  write_target-Accepted path content s bytes target h =
      let (size, encoded, h₁) = >>=-eq-ok (encoded_length content) _ h in
      let (u, fits, h₂) = >>=-eq-ok (checked_size fs max_write_bytes pg size) _ h₁ in
      let (file, jailed, h₃) =
        >>=-eq-ok (resolve_in_root (fs.readlink s.files) fs.links fs.root path) _ h₂ in
      let same : size ≡ bytes = cc in
      let there : file ≡ target = cc in
      record {
        size = rw (sym same) encoded;
        within_limit = rw (sym same) (fits_limit size fits);
        jailed = rw (sym there) jailed;
      }

  pub Accepted-write_target :
      (path content : Text) (s : Server F) (target : AbsolutePath) (bytes : ℕ)
      → Accepted path content s target bytes
      → write_target fs max_write_bytes pg path content s ≡ ok (bytes, target)
  unfolding write_target
  Accepted-write_target path content s target bytes a =
      ground (arith, a.size, a.within_limit, a.jailed)

  -- What becomes of an accepted write: the file system raises, or the audit does with the file in
  -- place, or the answer is the size and the stored row is the last one.
  abbrev pub Ending : Text → Text → Server F → AbsolutePath → ℕ → Result ℕ → Server F → Type 0
  Ending path content s target bytes r s' =
      let (written, files) = fs.write_bytes target content s.files in
      let logged =
        insert_row pg (file_audit_row pg) (row_for path content s target bytes) s.events in
      (s'.files ≡ files)
      × (((e : Exception) × (written ≡ err e) × (r ≡ err e) × (s'.events ≡ s.events))
          ⊎ ((e : Exception) × (logged ≡ err e) × (r ≡ err e) × (s'.events ≡ s.events))
          ⊎ ((logged ≡ ok s'.events) × (r ≡ ok bytes)))

  write_text_file-Ending :
      (path content : Text) (s : Server F) (target : AbsolutePath) (bytes : ℕ)
      → write_target fs max_write_bytes pg path content s ≡ ok (bytes, target)
      → let (r, s') = write_text_file fs max_write_bytes pg path content s in
        Ending path content s target bytes r s'
  unfolding write_text_file
  write_text_file-Ending path content s target bytes h =
      elim (Result-cases (fs.write_bytes target content s.files).0) [
        | inl (e, w) ↦ rw (h, w, write_text_file) (refl, inl (e, refl, refl, refl))
        | inr (u, w) ↦
            elim (Result-cases
              (insert_row pg (file_audit_row pg) (row_for path content s target bytes) s.events)) [
                | inl (e, l) ↦ rw (h, w, l, write_text_file) (refl, inr (inl (e, refl, refl, refl)))
                | inr (rows, l) ↦ rw (h, w, l, write_text_file) (refl, inr (inr (refl, refl)))
              ]
      ]

  -- A write that is refused (content that UTF-8 cannot encode or that is too large, a path out of the
  -- jail) leaves files and audit alone. One that is accepted changes the files as the file system
  -- does at the path inside the jail; then either the file system raises, or the audit raises and
  -- the file stays without a row, or the size is returned and the row of the write is the last one.
  pub write_text_file_lem :
      (path content : Text) (s : Server F)
      → let (r, s') = write_text_file fs max_write_bytes pg path content s in
        ((e : Exception) × (r ≡ err e) × (s' ≡ s))
        ⊎ ((target : AbsolutePath) × (bytes : ℕ) × Accepted path content s target bytes
            × Ending path content s target bytes r s')
  unfolding write_text_file
  write_text_file_lem path content s =
      elim (Result-cases (write_target fs max_write_bytes pg path content s)) [
        | inl (e, h) ↦ inl (e, rw (h, write_text_file) refl, rw (h, write_text_file) refl)
        | inr ((bytes, target), h) ↦ inr (
          target,
          bytes,
          write_target-Accepted path content s bytes target h,
          write_text_file-Ending path content s target bytes h,
        )
      ]

module _ {F : Type 0} (fs : FileSystem F) (max_write_bytes : ℕ) (pg : Postgres)
    (honours : HonoursColumns pg) where
  -- If the database answers, an accepted write that the file system carries out is recorded when its
  -- path has at most 1024 characters, path and preview have no character 0 and no surrogate, and the
  -- limit of bytes is a 32-bit integer: the answer is the size, and the last row has the whole path,
  -- the size, the first 200 characters, and "write" over an existing file, else "create".
  pub write_is_recorded :
      (path content : Text) (s : Server F) (target : AbsolutePath) (bytes : ℕ)
      → Accepted fs max_write_bytes pg path content s target bytes
      → (fs.write_bytes target content s.files).0 ≡ ok tt
      → pg.outage ≡ none
      → length path ≤ 1024
      → is_storable path ≡ true
      → is_storable (take preview_chars content) ≡ true
      → max_write_bytes ≤ max_integer
      → write_text_file fs max_write_bytes pg path content s ≡ (
        ok bytes,
        record {
          files = (fs.write_bytes target content s.files).1;
          events = s.events ++ row_for fs max_write_bytes pg path content s target bytes ∷ [];
        },
      )
  unfolding write_text_file
  write_is_recorded path content s target bytes a w up short clean clean' small =
      let row = row_for fs max_write_bytes pg path content s target bytes in
      let size : bytes ≤ max_integer = omega (arith, a.within_limit, small) in
      let fits = file_audit_row_fits pg honours row short clean size clean' in
      rw
        (
          Accepted-write_target fs max_write_bytes pg path content s target bytes a,
          w,
          insert_row_stores pg (file_audit_row pg) row s.events up fits,
          write_text_file,
        )
        refl

  -- A write whose first 200 characters a text column refuses, as it does the character 0, is not
  -- recorded, whatever else the database does: if it is accepted and the file system carries it out,
  -- the file is written, the audit has no row for it, and the caller gets an error.
  unstorable_write_is_not_recorded :
      (path content : Text) (s : Server F) (target : AbsolutePath) (bytes : ℕ)
      → Accepted fs max_write_bytes pg path content s target bytes
      → (fs.write_bytes target content s.files).0 ≡ ok tt
      → is_storable (take preview_chars content) ≡ false
      → (e : Exception) × (write_text_file fs max_write_bytes pg path content s
          ≡ (err e, record s { files = (fs.write_bytes target content s.files).1 }))
  unfolding write_text_file
  unstorable_write_is_not_recorded path content s target bytes a w h =
      let row = row_for fs max_write_bytes pg path content s target bytes in
      let refused = file_audit_row-Raises pg honours row h in
      let (e, r) = insert_row-Raises pg (file_audit_row pg) row s.events refused in
      let checked = Accepted-write_target fs max_write_bytes pg path content s target bytes a in
      (e, rw (checked, w, r, write_text_file) refl)
