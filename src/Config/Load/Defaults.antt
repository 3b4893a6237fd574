-- ===== src/Config/Load/Defaults.antt =====
-- internal/config/config.go: the defaults of `setDefaults` beside the checks of `validate`.
use sendit.Prelude.{
  ◌≡◌, refl, true, false, List, [], ◌∷◌, ◌++◌, append-nil, ok, if◌then◌else◌, arith, Bool-cases,
  Result-cases, inl, inr, ok-injective, subst,
}
use sendit.Prelude.Int.{ℤ, pos, leb_ℤ}
use sendit.Prelude.Text.{Text, codes, text_eq, text_eq_iff, one_of, to_lower}
use sendit.Config.Schema.{TargetConfig, Config}
use sendit.Config.Validate.{
  default_rps_not_positive, kept, is_empty, kinds, count_checks, validate_target, validate_targets,
  validate, pacing_checks, limits_checks, backoff_checks, output_checks, daemon_checks,
  target_checks, validate_auth,
}
use sendit.Config.TargetsFile.{weight_of, parse_fields}
use sendit.Config.TargetsFile.Loaded.{weight_positive}
use sendit.Config.Load.{set_defaults}

validate-parts :
    (cfg : Config)
    → validate cfg
      ≡ kept (pacing_checks cfg.pacing)
        ++ kept (limits_checks cfg.limits)
        ++ kept ((leb_ℤ cfg.rate_limits.default_rps (pos 0), default_rps_not_positive) ∷ [])
        ++ kept (backoff_checks cfg.backoff)
        ++ kept (count_checks cfg.targets)
        ++ validate_targets 0 cfg.targets
        ++ kept (output_checks cfg.output)
        ++ kept (daemon_checks cfg.daemon)
unfolding validate
validate-parts cfg = refl

settings_fine :
    (kept (pacing_checks set_defaults.pacing) ≡ [])
    × (kept (limits_checks set_defaults.limits) ≡ [])
    × (kept ((leb_ℤ set_defaults.rate_limits.default_rps (pos 0), default_rps_not_positive) ∷ [])
        ≡ [])
    × (kept (backoff_checks set_defaults.backoff) ≡ [])
    × (kept (output_checks set_defaults.output) ≡ [])
    × (kept (daemon_checks set_defaults.daemon) ≡ [])
unfolding kept pacing_checks limits_checks backoff_checks output_checks daemon_checks set_defaults
settings_fine = (refl, refl, refl, refl, refl, refl)

-- A configuration file that gives targets and nothing else has no problem but those of its targets.
pub validate-set_defaults :
    (ts : List TargetConfig)
    → validate (record set_defaults { targets = ts })
      ≡ kept (count_checks ts) ++ validate_targets 0 ts
validate-set_defaults ts =
    let (p, l, r, b, o, d) = settings_fine in
    rw (validate-parts (record set_defaults { targets = ts }), p, l, r, b, o, d) (simp append-nil)

-- The types of targets that need no settings of their own.
abbrev pub plain_kinds : List Text
plain_kinds = codes "http" ∷ codes "browser" ∷ codes "dns" ∷ codes "websocket" ∷ []

plain_kind :
    (kind : Text)
    → one_of kind plain_kinds ≡ true
    → (one_of kind kinds ≡ true)
      × (text_eq kind (codes "grpc") ≡ false)
      × (text_eq kind (codes "sftp") ≡ false)
unfolding one_of text_eq
plain_kind kind h = elim (Bool-cases (text_eq (codes "http") kind)) [
  | inl e ↦ rw (← (text_eq_iff (codes "http") kind).0 e) (refl, refl, refl)
  | inr no_http ↦ elim (Bool-cases (text_eq (codes "browser") kind)) [
    | inl e ↦ rw (← (text_eq_iff (codes "browser") kind).0 e) (refl, refl, refl)
    | inr no_browser ↦ elim (Bool-cases (text_eq (codes "dns") kind)) [
      | inl e ↦ rw (← (text_eq_iff (codes "dns") kind).0 e) (refl, refl, refl)
      | inr no_dns ↦ elim (Bool-cases (text_eq (codes "websocket") kind)) [
        | inl e ↦ rw (← (text_eq_iff (codes "websocket") kind).0 e) (refl, refl, refl)
        | inr no_ws ↦ absurd (cc (rw (no_http, no_browser, no_dns, no_ws, one_of) at h))
      ]
    ]
  ]
]

-- A target of such a type has no problem, if it has a URL, a positive weight and no authentication.
pub validate_target-plain :
    (t : TargetConfig)
    → is_empty t.url ≡ false
    → leb_ℤ t.weight (pos 0) ≡ false
    → one_of t.kind plain_kinds ≡ true
    → is_empty t.auth.kind ≡ true
    → validate_target t ≡ []
unfolding validate_target target_checks validate_auth kept
validate_target-plain t given positive plain open_to_all =
    let (known, no_grpc, no_sftp) = plain_kind t.kind plain in
    simp (given, positive, known, no_grpc, no_sftp, open_to_all)

positive : (w : ℤ) → leb_ℤ (if leb_ℤ w (pos 0) then pos 1 else w) (pos 0) ≡ false
positive w = ground (arith, weight_positive w)

-- With the defaults, a line of a targets file with a URL and one of the types http, browser, dns and websocket
-- either has a bad weight or gives a target in which `validate` finds nothing.
pub validate_target-parse_fields :
    (url kind : Text) (more : List Text) (t : TargetConfig)
    → is_empty url ≡ false
    → one_of (to_lower kind) plain_kinds ≡ true
    → parse_fields set_defaults.target_defaults (url ∷ kind ∷ more) ≡ ok t
    → validate_target t ≡ []
unfolding parse_fields set_defaults is_empty
validate_target-parse_fields url kind more t given plain e =
    let known = (plain_kind (to_lower kind) plain).0 in
    elim (Result-cases (weight_of (pos 1) more)) [
      | inl (why, bad) ↦ absurd (cc (rw (known, bad) at e))
      | inr (w, good) ↦
          subst (λ x. validate_target x ≡ []) (ok-injective _ t (rw (known, good) at e))
            (validate_target-plain _ given (positive w) plain refl)
    ]
