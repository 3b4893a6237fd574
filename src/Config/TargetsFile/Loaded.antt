-- ===== src/Config/TargetsFile/Loaded.antt =====
-- internal/config/config.go: what `loadTargetsFile` appends.
use sendit.Prelude.{
  ℕ, ◌+◌, ◌≡◌, ◌⊎◌, ◌∙◌, refl, sym, subst, append-nil, Bool, true, false, List, [], ◌∷◌, ◌++◌,
  append_assoc, if◌then◌else◌, Result, ok, err, ok-injective, arith, Bool-cases, inl, inr,
}
use sendit.Prelude.Int.{ℤ, pos, ◌<ℤ◌, leb_ℤ}
use sendit.Prelude.Text.{Text, one_of, trim_space, fields, to_lower}
use sendit.Config.Schema.{TargetDefaultsConfig, TargetConfig}
use sendit.Config.Validate.{kinds}
use sendit.Config.TargetsFile.{weight_of, parse_fields, is_skipped, load_lines}

pub weight_positive : (w : ℤ) → pos 0 <ℤ (if leb_ℤ w (pos 0) then pos 1 else w)
weight_positive w = ground arith

Result-cases : {E A : Type 0} (r : Result E A) → ((e : E) × (r ≡ err e)) ⊎ ((a : A) × (r ≡ ok a))
Result-cases (err e) = inl (e, refl)
Result-cases (ok a) = inr (a, refl)

-- The targets of the lines that are neither blank nor comments, in order: the first field is the URL, the second the
-- type in lower case, the third the weight, which the defaults give if it is not there, as they give all else.
pub data Lists (d : TargetDefaultsConfig) : List Text → List TargetConfig → Type 0 where
  no_lines : Lists d [] []
  skipped :
      {raw : Text} {lines : List Text} {ts : List TargetConfig}
      → is_skipped (trim_space raw) ≡ true
      → Lists d lines ts
      → Lists d (raw ∷ lines) ts
  listed :
      {raw : Text} {lines : List Text} {ts : List TargetConfig} (url kind : Text) (more : List Text)
      (w : ℤ)
      → is_skipped (trim_space raw) ≡ false
      → fields (trim_space raw) ≡ url ∷ kind ∷ more
      → one_of (to_lower kind) kinds ≡ true
      → weight_of d.weight more ≡ ok w
      → Lists d lines ts
      → Lists d (raw ∷ lines) (
          record {
            url = url;
            weight = if leb_ℤ w (pos 0) then pos 1 else w;
            kind = to_lower kind;
            auth = d.auth;
            http = d.http;
            browser = d.browser;
            dns = d.dns;
            websocket = d.websocket;
            grpc = d.grpc;
            sftp = d.sftp;
          }
          ∷ ts)

Lists-parse_fields :
    (d : TargetDefaultsConfig) (raw : Text) (lines : List Text) (ts : List TargetConfig)
    (fs : List Text) (t : TargetConfig)
    → is_skipped (trim_space raw) ≡ false
    → fields (trim_space raw) ≡ fs
    → parse_fields d fs ≡ ok t
    → Lists d lines ts
    → Lists d (raw ∷ lines) (t ∷ ts)
unfolding parse_fields
Lists-parse_fields d raw lines ts [] t entry same e l = absurd (cc e)
Lists-parse_fields d raw lines ts (url ∷ []) t entry same e l = absurd (cc e)
Lists-parse_fields d raw lines ts (url ∷ kind ∷ more) t entry same e l =
    elim (Bool-cases (one_of (to_lower kind) kinds)) [
      | inr unknown ↦ absurd (cc (rw unknown at e))
      | inl known ↦ elim (Result-cases (weight_of d.weight more)) [
        | inl (why, bad) ↦ absurd (cc (rw (known, bad) at e))
        | inr (w, good) ↦
            subst (λ x. Lists d (raw ∷ lines) (x ∷ ts)) (ok-injective _ t (rw (known, good) at e))
              (listed url kind more w entry same known good l)
      ]
    ]

-- If `loadTargetsFile` succeeds, the file was read to its end, and what it has appended to the targets before is the
-- list of the targets of its lines.
pub load_lines-Lists :
    (d : TargetDefaultsConfig) (failed : Bool) (n : ℕ) (lines : List Text)
    (ts ts' : List TargetConfig)
    → load_lines d failed n lines ts ≡ ok ts'
    → (new : List TargetConfig) × (ts' ≡ ts ++ new) × (failed ≡ false) × Lists d lines new
unfolding load_lines
load_lines-Lists d true n [] ts ts' e = absurd (cc e)
load_lines-Lists d false n [] ts ts' e =
    ([], sym (ok-injective ts ts' e) ∙ sym (append-nil ts), refl, no_lines)
load_lines-Lists d failed n (raw ∷ lines) ts ts' e =
    elim (Bool-cases (is_skipped (trim_space raw))) [
      | inl blank ↦
          let (new, shape, whole, l) =
            load_lines-Lists d failed (n + 1) lines ts ts' (rw (blank, load_lines) at e) in
          (new, shape, whole, skipped blank l)
      | inr entry ↦ elim (Result-cases (parse_fields d (fields (trim_space raw)))) [
        | inl (why, bad) ↦ absurd (cc (rw (entry, bad, load_lines) at e))
        | inr (t, good) ↦
            let (new, shape, whole, l) =
              load_lines-Lists d failed (n + 1) lines (ts ++ (t ∷ [])) ts'
                (rw (entry, good, load_lines) at e) in
            (
              t ∷ new,
              shape ∙ append_assoc ts (t ∷ []) new,
              whole,
              Lists-parse_fields d raw lines new (fields (trim_space raw)) t entry refl good l,
            )
      ]
    ]
