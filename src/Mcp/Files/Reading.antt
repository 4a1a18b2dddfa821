-- ===== src/Mcp/Files/Reading.antt =====
-- app/mcp/fs_server.py: what read_text_file gives back of what write_text_file has written.
use agentic_enterprise.Base.{
  ℕ, ◌≡◌, refl, sym, err, ap, ◌∙◌, ◌↔◌, inl, inr, false, Text, ok, Result-cases,
}
use agentic_enterprise.Database.{read}
use mathlib.Core.Path.{fun_ext}
use agentic_enterprise.Database.Columns.{Postgres, file_audit_row, insert_row}
use agentic_enterprise.Mcp.Paths.{AbsolutePath, resolve_in_root}
use agentic_enterprise.Mcp.Files.{
  encoded_length, universal_newlines, FileSystem, Server, event_of, audited, read_content,
  read_text_file, write_text_file,
}
use agentic_enterprise.Mcp.Files.Audit.{Accepted, Accepted-write_target, write_text_file_lem}
use agentic_enterprise.Mcp.Files.Newlines.{has_cr, universal_newlines_id, encoded_translation}

-- What a file system documents: after a write that returns, the file holds the content, and the links
-- are those from before.
pub record RemembersWrites {F : Type 0} (fs : FileSystem F) : Type 0 where
  pub holds :
      (target : AbsolutePath) (content : Text) (files : F)
      → (fs.write_bytes target content files).0 ≡ ok tt
      → fs.decode (fs.write_bytes target content files).1 target ≡ ok content
  pub keeps_links :
      (target path : AbsolutePath) (content : Text) (files : F)
      → fs.readlink (fs.write_bytes target content files).1 path ≡ fs.readlink files path

module _ {F : Type 0} (fs : FileSystem F) (max_write_bytes : ℕ) (pg : Postgres)
    (remembers : RemembersWrites fs) where
  -- A read that gets as far as its audit row: the content, unless the audit raises.
  abbrev pub Reads : Text → Text → Server F → Type 0
  Reads path content s =
      (bytes : ℕ) × (encoded_length content ≡ ok bytes)
      × (read_text_file fs max_write_bytes pg path s
          ≡ audited fs max_write_bytes pg content s (
              insert_row pg (file_audit_row pg)
                (event_of fs max_write_bytes pg path read bytes content) s.events))

  decoded_content :
      (path decoded : Text) (target : AbsolutePath) (bytes : ℕ) (s : Server F)
      → resolve_in_root (fs.readlink s.files) fs.links fs.root path ≡ ok target
      → fs.decode s.files target ≡ ok decoded
      → encoded_length (universal_newlines decoded) ≡ ok bytes
      → read_content fs max_write_bytes pg path s ≡ ok (universal_newlines decoded, bytes)
  unfolding read_content
  decoded_content path decoded target bytes s jailed found size =
      rw (jailed, found, size, read_content) refl

  decoded-Reads :
      (path decoded : Text) (target : AbsolutePath) (bytes : ℕ) (s : Server F)
      → resolve_in_root (fs.readlink s.files) fs.links fs.root path ≡ ok target
      → fs.decode s.files target ≡ ok decoded
      → encoded_length (universal_newlines decoded) ≡ ok bytes
      → Reads path (universal_newlines decoded) s
  unfolding read_text_file
  decoded-Reads path decoded target bytes s jailed found size = (
    bytes,
    size,
    rw (decoded_content path decoded target bytes s jailed found size, read_text_file) refl,
  )

  -- A write that returns has been accepted, and the file system has carried it out.
  returned_write :
      (path content : Text) (s : Server F) (bytes : ℕ)
      → (write_text_file fs max_write_bytes pg path content s).0 ≡ ok bytes
      → (target : AbsolutePath) × (size : ℕ) × Accepted fs max_write_bytes pg path content s target
          size
        × ((fs.write_bytes target content s.files).0 ≡ ok tt)
        × ((write_text_file fs max_write_bytes pg path content s).1.files
            ≡ (fs.write_bytes target content s.files).1)
  unfolding write_text_file
  returned_write path content s bytes h =
      elim (write_text_file_lem fs max_write_bytes pg path content s) [
        | inl (e, raised, same) ↦ absurd (cc)
        | inr (target, size, accepted, ending) ↦
            elim (Result-cases (fs.write_bytes target content s.files).0) [
              | inl (e, w) ↦
                  let checked =
                    Accepted-write_target fs max_write_bytes pg path content s target size
                      accepted in
                  let g : err e ≡ ok bytes = sym (rw (checked, w, write_text_file) refl) ∙ h in
                  absurd (cc)
              | inr (u, w) ↦ (target, size, accepted, w, ending.0)
            ]
      ]

  -- A write that returns, read back by the same path, gives the content with "\r\n" and "\r" as "\n", or
  -- the error of the audit; so it is the content itself exactly when that has no "\r".
  pub write-read :
      (path content : Text) (s : Server F) (bytes : ℕ)
      → (write_text_file fs max_write_bytes pg path content s).0 ≡ ok bytes
      → Reads path
          (universal_newlines content)
          (write_text_file fs max_write_bytes pg path content s).1
        × ((universal_newlines content ≡ content) ↔ (has_cr content ≡ false))
  unfolding universal_newlines
  write-read path content s bytes h =
      let (target, size, accepted, w, files) = returned_write path content s bytes h in
      let s' = (write_text_file fs max_write_bytes pg path content s).1 in
      let links : fs.readlink s'.files ≡ fs.readlink s.files =
        fun_ext
          (λ p. ap (λ f. fs.readlink f p) files ∙ remembers.keeps_links target p content s.files) in
      let found : fs.decode s'.files target ≡ ok content =
        ap (λ f. fs.decode f target) files ∙ remembers.holds target content s.files w in
      let (read_size, encodes, less) = encoded_translation false content size accepted.size in
      (
        decoded-Reads path content target read_size s'
            (ap (λ l. resolve_in_root l fs.links fs.root path) links ∙ accepted.jailed) found
            encodes,
        universal_newlines_id content,
      )
