-- ===== src/Generate/Emit/Written.antt =====
-- cmd/sendit/generate.go: what a reader of the printed configuration finds in it, and which file is replaced.
use sendit.Prelude.{
  ◌≡◌, refl, ap, ◌∙◌, Bool, true, false, List, [], ◌∷◌, ◌++◌, append_assoc, Option, none, some,
  Bool-cases, Option-cases, inl, inr, ◌⊎◌, ◌==◌,
}
use sendit.Prelude.Decimal.{itoa_ℤ}
use sendit.Prelude.Text.{Text, codes, text_eq, one_of}
use sendit.Config.Schema.{TargetConfig}
use sendit.Config.Validate.{is_empty}
use sendit.Generate.Emit.{
  EmitError, aborted, creating, Emitted, is_yes, driver_lines, format_target, format_targets,
  format_config, create_config, emit_generated_config,
}

-- What follows a prefix.
unfoldable after : Text → Text → Option Text
after [] s = some s
after (p ∷ ps) [] = none
after (p ∷ ps) (c ∷ s) = elim (p == c) [ true ↦ after ps s | false ↦ none ]

-- A line with a URL, and the two lines after it.
unfoldable value : Text → Text → Text
unfolding after
value key line = elim (after key line) [ none ↦ [] | some s ↦ s ]

abbrev pub Row : Type 0
Row = Text × Text × Text

unfoldable head_or_empty : List Text → Text
head_or_empty [] = []
head_or_empty (l ∷ ls) = l

unfoldable rest_of : List Text → List Text
rest_of [] = []
rest_of (l ∷ ls) = ls

-- The URL, the weight and the type of each item of a printed list.
unfoldable pub listed : List Text → List Row
unfolding after value head_or_empty rest_of
listed [] = []
listed (l ∷ ls) = elim (after (codes "  - url: ") l) [
  | none ↦ listed ls
  | some url ↦
      (
        url,
        value (codes "    weight: ") (head_or_empty ls),
        value (codes "    type: ") (head_or_empty (rest_of ls)),
      )
      ∷ listed ls
]

module _ (quote : Text → Text) where
  unfoldable pub rows : List TargetConfig → List Row
  rows [] = []
  rows (t ∷ ts) = (quote t.url, itoa_ℤ t.weight, t.kind) ∷ rows ts

  listed-driver_lines :
      (t : TargetConfig) (ls : List Text) → listed (driver_lines quote t ++ ls) ≡ listed ls
  unfolding driver_lines listed
  listed-driver_lines t ls =
      elim (Bool-cases (one_of t.kind (codes "http" ∷ codes "browser" ∷ []))) [
        | inl web ↦ rw web refl
        | inr other ↦ elim (Bool-cases (text_eq t.kind (codes "dns"))) [
          | inl dns ↦ rw (other, dns) refl
          | inr not_dns ↦ elim (Bool-cases (text_eq t.kind (codes "websocket"))) [
            | inl websocket ↦ rw (other, not_dns, websocket) refl
            | inr plain ↦ rw (other, not_dns, plain) refl
          ]
        ]
      ]

  listed-format_targets :
      (ts : List TargetConfig) (ls : List Text)
      → listed ls ≡ []
      → listed (format_targets quote ts ++ ls) ≡ rows ts
  unfolding format_targets format_target listed rows
  listed-format_targets [] ls none_after = none_after
  listed-format_targets (t ∷ ts) ls none_after =
      ap listed (append_assoc (format_target quote t) (format_targets quote ts) ls)
      ∙ ap (λ more. (quote t.url, itoa_ℤ t.weight, t.kind) ∷ more)
          (listed-driver_lines t (format_targets quote ts ++ ls)
            ∙ listed-format_targets ts ls none_after)

  pub listed-format_config :
      (now : Text) (ts : List TargetConfig) → listed (format_config quote now ts) ≡ rows ts
  unfolding format_config listed
  listed-format_config now ts = listed-format_targets ts _ refl

  -- How `emitGeneratedConfig` ends.
  pub data Ends (out_path : Text) (before : Option (List Text)) (answer : Text)
      (ts : List TargetConfig) : Emitted → Type 0 where
    shown :
        (lines : List Text)
        → is_empty out_path ≡ true
        → listed lines ≡ rows ts
        → Ends out_path before answer ts (record { error = none; file = before; out = lines })
    written :
        (lines out : List Text)
        → is_empty out_path ≡ false
        → listed lines ≡ rows ts
        → (before ≡ none) ⊎ (is_yes answer ≡ true)
        → Ends out_path before answer ts (record { error = none; file = some lines; out = out })
    refused :
        (why : EmitError)
        → is_empty out_path ≡ false
        → Ends out_path before answer ts (record { error = some why; file = before; out = [] })

  create_config-Ends :
      (now : Text) (creates : Bool) (out_path : Text) (before : Option (List Text)) (answer : Text)
      (ts : List TargetConfig)
      → is_empty out_path ≡ false
      → (before ≡ none) ⊎ (is_yes answer ≡ true)
      → Ends out_path before answer ts (create_config quote now creates out_path before ts)
  unfolding create_config
  create_config-Ends now true out_path before answer ts named allowed =
      written (format_config quote now ts) _ named (listed-format_config now ts) allowed
  create_config-Ends now false out_path before answer ts named allowed = refused creating named

  -- Whatever the file held, the answer and whether the file can be created: with no path the configuration goes to the
  -- standard output and no file changes; with a path it replaces what the file held, and only if there was no file or
  -- the answer is yes; or there is an error, and the file is as it was. A reader of the printed lines finds exactly the
  -- targets, in order, with their weights and types.
  pub emit_generated_config-Ends :
      (now : Text) (creates : Bool) (out_path : Text) (before : Option (List Text)) (answer : Text)
      (ts : List TargetConfig)
      → Ends out_path before answer ts
          (emit_generated_config quote now creates out_path before answer ts)
  unfolding emit_generated_config
  emit_generated_config-Ends now creates out_path before answer ts =
      elim (Bool-cases (is_empty out_path)) [
        | inl no_path ↦
            rw (no_path, emit_generated_config)
              (shown (format_config quote now ts) no_path (listed-format_config now ts))
        | inr named ↦ elim (Option-cases before) [
          | inl new ↦
              simp (named, new, emit_generated_config)
                (create_config-Ends now creates out_path none answer ts named (inl refl))
          | inr (held, there) ↦ elim (Bool-cases (is_yes answer)) [
            | inl agreed ↦
                simp (named, there, agreed, emit_generated_config)
                  (create_config-Ends now creates out_path (some held) answer ts named (inr agreed))
            | inr refuses ↦
                simp (named, there, refuses, emit_generated_config) (refused aborted named)
          ]
        ]
      ]
