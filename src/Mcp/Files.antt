-- ===== src/Mcp/Files.antt =====
-- app/mcp/fs_server.py: the file tools behind the jail, with their audit rows.
pub mod Audit
pub mod Newlines
pub mod Reading
use agentic_enterprise.Base.{
  ℕ, ◌+◌, Bool, false, ◌&&◌, Option, List, [], ◌∷◌, ltb, ◌==◌, if◌then◌else◌, take, Text,
  is_surrogate, value_error, Result, err, ok, ◌>>=◌, ◌>>◌,
}
use agentic_enterprise.Database.{FileAction, read, write, create, FileAuditEvent}
use agentic_enterprise.Database.Columns.{Postgres, file_audit_row, insert_row}
use agentic_enterprise.Mcp.Paths.{AbsolutePath, resolve_in_root}

-- len(text.encode("utf-8")), by code point; a surrogate cannot be encoded.
abbrev pub utf8_width : ℕ → ℕ
utf8_width c = if ltb c 0x80 then 1 else if ltb c 0x800 then 2 else if ltb c 0x10000 then 3 else 4

unfoldable pub encoded_length : Text → Result ℕ
unfolding is_surrogate
encoded_length [] = ok 0
encoded_length (c ∷ s) = do
  let rest = encoded_length s
  if is_surrogate c then err value_error else (do n ← rest; ok (utf8_width c + n))

-- Text mode reads "\r\n" and "\r" as "\n"; `after_cr` is set behind a "\r".
unfoldable pub translate : Bool → Text → Text
translate after_cr [] = []
translate after_cr (c ∷ s) =
    let rest = translate (c == b'\r') s in
    if c == b'\r' then b'\n' ∷ rest else if after_cr && c == b'\n' then rest else c ∷ rest

unfoldable pub universal_newlines : Text → Text
unfolding translate
universal_newlines s = translate false s

-- The files, over a state `F`: the links, and the calls that the tools make. `decode` is the content of
-- a file as UTF-8, or an error. `write_bytes` makes the parent folders first, and may raise with a part of
-- its work done.
pub record FileSystem (F : Type 0) : Type 0 where
  pub readlink : F → AbsolutePath → Option Text
  pub links : ℕ
  pub root : AbsolutePath
  pub exists : F → AbsolutePath → Bool
  pub decode : F → AbsolutePath → Result Text
  pub write_bytes : AbsolutePath → Text → F → Result (Unit {0}) × F
  pub iterdir : F → AbsolutePath → Result (List Text)
  pub sorted : List Text → List Text

-- The state of the server: the files and `file_audit_events`.
pub record Server (F : Type 0) : Type 0 where
  pub files : F
  pub events : List FileAuditEvent

abbrev pub preview_chars : ℕ
preview_chars = 200

module _ {F : Type 0} (fs : FileSystem F) (max_write_bytes : ℕ) (pg : Postgres) where
  unfoldable pub target_of : Server F → Text → Result AbsolutePath
  target_of s path = resolve_in_root (fs.readlink s.files) fs.links fs.root path

  abbrev pub event_of : Text → FileAction → ℕ → Text → FileAuditEvent
  event_of path action bytes content = record {
    path = path;
    action = action;
    byte_count = bytes;
    preview = take preview_chars content;
  }

  -- What the tool returns once its audit row is committed; an error of the audit is the tool's.
  abbrev pub audited :
      {A : Type 0} → A → Server F → Result (List FileAuditEvent) → Result A × Server F
  audited value s (ok rows) = (ok value, record s { events = rows })
  audited value s (err e) = (err e, s)

  unfoldable pub read_content : Text → Server F → Result (Text × ℕ)
  unfolding target_of universal_newlines
  read_content path s = do
    target ← target_of s path
    decoded ← fs.decode s.files target
    let content = universal_newlines decoded
    bytes ← encoded_length content
    ok (content, bytes)

  unfoldable pub read_text_file : Text → Server F → Result Text × Server F
  unfolding read_content insert_row file_audit_row
  read_text_file path s = elim (read_content path s) [
    | err e ↦ (err e, s)
    | ok (content, bytes) ↦
        audited content s
          (insert_row pg (file_audit_row pg) (event_of path read bytes content) s.events)
  ]

  abbrev pub checked_size : ℕ → Result (Unit {0})
  checked_size bytes = if ltb max_write_bytes bytes then err value_error else ok tt

  -- What is checked before the write: the number of bytes, and the target inside the jail.
  unfoldable pub write_target : Text → Text → Server F → Result (ℕ × AbsolutePath)
  unfolding target_of
  write_target path content s = do
    bytes ← encoded_length content
    checked_size bytes
    target ← target_of s path
    ok (bytes, target)

  abbrev pub write_action : AbsolutePath → Server F → FileAction
  write_action target s = if fs.exists s.files target then write else create

  -- The write, then its row. The answer is the number of bytes, from which the text of the tool's
  -- answer is made.
  unfoldable pub write_text_file : Text → Text → Server F → Result ℕ × Server F
  unfolding write_target insert_row file_audit_row
  write_text_file path content s = elim (write_target path content s) [
    | err e ↦ (err e, s)
    | ok (bytes, target) ↦
        let (written, files) = fs.write_bytes target content s.files in
        let s' = record s { files = files } in
        elim written [
          | err e ↦ (err e, s')
          | ok u ↦ audited bytes s' (
              insert_row pg (file_audit_row pg)
                (event_of path (write_action target s) bytes content) s.events)
        ]
  ]

  unfoldable pub list_directory : Text → Server F → Result (List Text)
  unfolding target_of
  list_directory path s = do
    d ← target_of s path
    names ← fs.iterdir s.files d
    ok (fs.sorted names)
