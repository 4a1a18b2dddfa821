-- ===== src/Mcp/Files/Newlines.antt =====
-- app/mcp/fs_server.py: the newlines of a text that is read in text mode.
use agentic_enterprise.Base.{
  ℕ, ◌+◌, ◌≤◌, ◌≡◌, refl, sym, ap, ◌∙◌, ◌↔◌, inl, inr, Bool, true, false, ◌&&◌, ◌||◌, [], ◌∷◌,
  arith, ◌==◌, if◌then◌else◌, Bool-cases, Text, is_surrogate, ok, >>=-eq-ok,
}
use agentic_enterprise.Mcp.Files.{utf8_width, encoded_length, translate, universal_newlines}

-- "\r" in s
unfoldable pub has_cr : Text → Bool
has_cr [] = false
has_cr (c ∷ s) = c == b'\r' || has_cr s

no_cr_left : (after_cr : Bool) (s : Text) → has_cr (translate after_cr s) ≡ false
unfolding has_cr translate
no_cr_left after_cr [] = refl
no_cr_left after_cr (c ∷ s) = ground (arith, no_cr_left (c == b'\r') s)

untouched : (s : Text) → has_cr s ≡ false → translate false s ≡ s
unfolding has_cr translate
untouched [] h = refl
untouched (c ∷ s) h = ground (arith, untouched s)

-- A text reads back as itself exactly when it has no "\r".
pub universal_newlines_id : (s : Text) → (universal_newlines s ≡ s) ↔ (has_cr s ≡ false)
unfolding universal_newlines
universal_newlines_id s = (λ same. ap has_cr (sym same) ∙ no_cr_left false s, untouched s)

encoded_cons :
    (c : ℕ) (s : Text) (n : ℕ)
    → encoded_length (c ∷ s) ≡ ok n
    → (is_surrogate c ≡ false) × ((k : ℕ) × (encoded_length s ≡ ok k) × (utf8_width c + k ≡ n))
unfolding encoded_length
encoded_cons c s n h = elim (Bool-cases (is_surrogate c)) [
  | inl surrogate ↦ absurd (let g = rw surrogate at h in cc)
  | inr plain ↦
      let g = rw plain at h in
      let (k, rest, whole) = >>=-eq-ok (encoded_length s) (λ k. ok (utf8_width c + k)) g in
      (plain, (k, rest, cc))
]

cons-encoded :
    (c : ℕ) (s : Text) (k : ℕ)
    → is_surrogate c ≡ false
    → encoded_length s ≡ ok k
    → encoded_length (c ∷ s) ≡ ok (utf8_width c + k)
unfolding encoded_length
cons-encoded c s k plain rest = rw plain (rw rest refl)

newline_plain : is_surrogate b'\n' ≡ false
unfolding is_surrogate
newline_plain = refl

encoded_step :
    (cr lf : Bool) (c : ℕ) (rest : Text) (m k : ℕ)
    → is_surrogate c ≡ false
    → encoded_length rest ≡ ok m
    → m ≤ k
    → (n : ℕ) × (encoded_length (if cr then b'\n' ∷ rest else if lf then rest else c ∷ rest) ≡ ok n)
      × (n ≤ utf8_width c + k)
encoded_step true lf c rest m k plain fits less =
    (1 + m, cons-encoded b'\n' rest m newline_plain fits, ground (arith, less))
encoded_step false true c rest m k plain fits less = (m, fits, omega (arith, less))
encoded_step false false c rest m k plain fits less =
    (utf8_width c + m, cons-encoded c rest m plain fits, omega (arith, less))

-- What is read can be encoded, in no more bytes.
pub encoded_translation :
    (after_cr : Bool) (s : Text) (n : ℕ)
    → encoded_length s ≡ ok n
    → (m : ℕ) × (encoded_length (translate after_cr s) ≡ ok m) × (m ≤ n)
unfolding translate
encoded_translation after_cr [] n h = (n, h, omega arith)
encoded_translation after_cr (c ∷ s) n h =
    let (plain, (k, rest, whole)) = encoded_cons c s n h in
    let (m, fits, less) = encoded_translation (c == b'\r') s k rest in
    let (total, whole_fits, bound) =
      encoded_step (c == b'\r') (after_cr && c == b'\n') c (translate (c == b'\r') s) m k plain fits
        less in
    (total, whole_fits, omega (arith, bound, whole))
