-- ===== src/Output/Writer/Jsonl.antt =====
-- internal/output/writer.go: the objects of the JSONL format.
use sendit.Prelude.{
  ◌≡◌, refl, sym, ◌∙◌, ap, List, [], ◌∷◌, Option, none, some, Bool-cases, Option-cases, inl, inr,
}
use sendit.Prelude.Text.{Text, text_eq, text_eq_iff}
use sendit.Prelude.Assoc.{lookup, insert, lookup-insert}
use sendit.Output.Writer.{Record, Value, text, fixed_fields, add_meta, to_jsonl_record}

-- The first, or else the second as a text.
abbrev pub or_text : Option Value → Option Text → Option Value
or_text (some v) o = some v
or_text none (some t) = some (text t)
or_text none none = none

lookup-add_meta :
    (k : Text) (out : List (Text × Value)) (meta : List (Text × Text))
    → lookup k (add_meta out meta) ≡ or_text (lookup k out) (lookup k meta)
unfolding add_meta lookup
lookup-add_meta k out [] = elim (Option-cases (lookup k out)) [
  | inl gone ↦ rw gone refl
  | inr (v, there) ↦ rw there refl
]
lookup-add_meta k out ((j, t) ∷ more) = elim (Option-cases (lookup j out)) [
  | inr (v, reserved) ↦ elim (Bool-cases (text_eq j k)) [
    | inl same ↦
        let here : lookup k out ≡ some v =
          ap (λ i. lookup i out) (sym ((text_eq_iff j k).0 same)) ∙ reserved in
        rw (reserved, add_meta, lookup-add_meta k out more, here) refl
    | inr other ↦ rw (reserved, add_meta, lookup-add_meta k out more, other) refl
  ]
  | inl free ↦ elim (Bool-cases (text_eq j k)) [
    | inl same ↦
        let here : lookup k out ≡ none =
          ap (λ i. lookup i out) (sym ((text_eq_iff j k).0 same)) ∙ free in
        rw
          (
            free,
            add_meta,
            lookup-add_meta k (insert j (text t) out) more,
            lookup-insert j k (text t) out,
            same,
            here,
          )
          refl
    | inr other ↦
        rw
          (
            free,
            add_meta,
            lookup-add_meta k (insert j (text t) out) more,
            lookup-insert j k (text t) out,
            other,
          )
          refl
  ]
]

-- A field of a JSONL object is the fixed field of that name, if there is one, and else the driver's metadata of that
-- name: metadata never replaces a fixed field, and none of it is lost otherwise.
pub lookup-to_jsonl_record :
    (k : Text) (rec : Record) (meta : List (Text × Text))
    → lookup k (to_jsonl_record rec meta) ≡ or_text (lookup k (fixed_fields rec)) (lookup k meta)
unfolding to_jsonl_record
lookup-to_jsonl_record k rec meta = lookup-add_meta k (fixed_fields rec) meta
