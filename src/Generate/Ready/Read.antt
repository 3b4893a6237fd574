-- ===== src/Generate/Ready/Read.antt =====
-- cmd/sendit/generate.go and internal/config/config.go: what a reader makes of a printed configuration.
use sendit.Prelude.{ℕ, ◌≡◌, ◌≢◌, refl, true, false, List, [], ◌∷◌, none, some, All, arith}
use sendit.Prelude.Int.{ℤ, pos, negsuc, leb_ℤ}
use sendit.Prelude.Decimal.{decimal, itoa, itoa_ℤ}
use sendit.Prelude.Text.{Text}
use sendit.Config.Schema.{TargetConfig}
use sendit.Config.Validate.{validate}
use sendit.Config.TargetsFile.{natural, digits}
use sendit.Config.Load.{set_defaults}
use sendit.Config.Validate.{is_empty}
use sendit.Driver.Sftp.Key.{digits-decimal}
use sendit.Cli.Probe.Pid.{decimal-not_empty}
use sendit.Generate.Emit.{format_config}
use sendit.Generate.Emit.Written.{Row, listed, rows, listed-format_config}
use sendit.Generate.Ready.{IsFine}
use sendit.Generate.Ready.Printed.{AllFine, validate-IsFine}

-- A number without a sign, and 0 for any other text.
unfoldable number : Text → ℤ
unfolding natural
number s = elim (natural s) [ none ↦ pos 0 | some n ↦ pos n ]

natural-digits : (s : Text) (n : ℕ) → s ≢ [] → digits 0 s ≡ some n → natural s ≡ some n
unfolding natural
natural-digits [] n given e = absurd (given refl)
natural-digits (c ∷ s) n given e = e

number-itoa_ℤ : (w : ℤ) → leb_ℤ w (pos 0) ≡ false → number (itoa_ℤ w) ≡ w
unfolding number itoa_ℤ itoa
number-itoa_ℤ (pos n) h = simp (
  natural-digits (decimal n n) n (decimal-not_empty n n) (digits-decimal n n (omega arith)),
  number,
)
number-itoa_ℤ (negsuc n) h = absurd (ground (arith, h))

-- The targets of a printed configuration: `unquote` reads a quoted text, and `settings` is what is read of the lines of a
-- driver.
unfoldable pub read_back : (Text → Text) → (Row → TargetConfig) → List Row → List TargetConfig
unfolding number
read_back unquote settings [] = []
read_back unquote settings (r ∷ rs) =
    record (settings r) { url = unquote r.0; weight = number r.1; kind = r.2 }
    ∷ read_back unquote settings rs

module _ (quote unquote : Text → Text) (exact : (s : Text) → unquote (quote s) ≡ s)
    (settings : Row → TargetConfig)
    (no_auth : (r : Row) → is_empty (settings r).auth.kind ≡ true) where
  read_back-IsFine :
      (ts : List TargetConfig)
      → All IsFine ts
      → All IsFine (read_back unquote settings (rows quote ts))
  unfolding read_back rows
  read_back-IsFine [] h = tt
  read_back-IsFine (t ∷ ts) h = (
    (
      rw (exact t.url) h.0.0,
      rw (number-itoa_ℤ t.weight h.0.1) h.0.1,
      h.0.2,
      no_auth (quote t.url, itoa_ℤ t.weight, t.kind),
    ),
    read_back-IsFine ts h.1,
  )

  pub validate-read_back :
      (now : Text) (ts : List TargetConfig)
      → AllFine ts
      → validate (record set_defaults {
        targets = read_back unquote settings (listed (format_config quote now ts));
      })
        ≡ []
  unfolding AllFine read_back rows
  validate-read_back now [] h = absurd (h.0 refl)
  validate-read_back now (t ∷ ts) h =
      rw (listed-format_config quote now (t ∷ ts))
        (validate-IsFine _ _ (read_back-IsFine (t ∷ ts) h.1))
