-- ===== src/Graph/ToolErrors.antt =====
-- app/graph/engine.py: format_tool_error, and the round from a tool call that raises back to the model.
use mathlib.Core.List.{append_assoc, append-nil}
use mathlib.Core.Path.{subst}
use agentic_enterprise.Base.{
  ◌≡◌, sym, ap, ◌∙◌, List, [], ◌∷◌, ◌++◌, map, All, All-mono, Text, codes,
}
use agentic_enterprise.Graph.Tools.{
  FieldError, invalid_arguments, ToolException, join, field_line, cause_of, cause_text,
  format_tool_error,
}

-- `part` stands somewhere in `text`.
pub record IsPart (part text : Text) : Type 0 where
  pub before : Text
  pub after : Text
  pub is_there : text ≡ before ++ part ++ after

IsPart-++ : (part p text q : Text) → IsPart part text → IsPart part (p ++ text ++ q)
IsPart-++ part p text q h = record {
  before = p ++ h.before;
  after = h.after ++ q;
  is_there =
      ap (λ z. p ++ z ++ q) h.is_there
      ∙ ap (λ z. z ++ q) (sym (append_assoc p (h.before ++ part) h.after))
      ∙ append_assoc (p ++ (h.before ++ part)) h.after q
      ∙ ap (λ z. z ++ (h.after ++ q)) (sym (append_assoc p h.before part));
}

IsPart-after : (p part text : Text) → IsPart part text → IsPart part (p ++ text)
IsPart-after p part text h =
    subst (λ z. IsPart part z) (append-nil (p ++ text)) (IsPart-++ part p text [] h)

-- Every line is a part of the joined text.
joined :
    {A : Type 0} (line : A → Text) (sep : Text) (xs : List A)
    → All (λ x. IsPart (line x) (join sep (map line xs))) xs
unfolding join
joined line sep [] = tt
joined line sep (x ∷ []) =
    (record { before = []; after = []; is_there = sym (append-nil (line x)) }, tt)
joined {A} line sep (x ∷ y ∷ xs) =
    let rest = join sep (map line (y ∷ xs)) in
    (
      record { before = []; after = sep ++ rest; is_there = append_assoc (line x) sep rest },
      All-mono (λ z. IsPart (line z) (line x ++ sep ++ rest)) (λ z. IsPart (line z) rest) (y ∷ xs)
          (λ z h. IsPart-after (line x ++ sep) (line z) rest h) (joined line sep (y ∷ xs)),
    )

-- The text for bad arguments has the line of every field that pydantic rejects.
pub bad_fields_are_named :
    (exc : ToolException) (errors : List FieldError)
    → cause_of exc ≡ invalid_arguments errors
    → All (λ e. IsPart (field_line e) (format_tool_error exc)) errors
unfolding format_tool_error cause_text
bad_fields_are_named exc errors h =
    let text = join (codes "; ") (map field_line errors) in
    rw h (
      All-mono (λ e. IsPart (field_line e) (cause_text (invalid_arguments errors)))
        (λ e. IsPart (field_line e) text) errors
        (λ e within.
          IsPart-++ (field_line e) (codes "Invalid arguments: ") text
            (codes ". Fix them and call the tool again.") within)
        (joined field_line (codes "; ") errors))
