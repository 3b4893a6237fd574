-- ===== src/Config/Validate/Tests.antt =====
-- `validate` on the sample configuration and on broken ones.
use sendit.Prelude.{◌≡◌, refl, [], ◌∷◌}
use sendit.Prelude.Int.{pos, negsuc}
use sendit.Prelude.Text.{codes}
use sendit.Config.Samples.{plain_config, target, web}
use sendit.Config.Validate.{
  bad_target, not_sftp_url, no_username, no_credentials, negative_min_delay, no_targets, validate,
}

broken_config :
    validate (record plain_config {
      targets = [];
      pacing = record plain_config.pacing { min_delay_ms = negsuc 0 };
    })
    ≡ negative_min_delay ∷ no_targets ∷ []
unfolding validate
broken_config = refl

broken_sftp :
    validate
      (record plain_config { targets = web ∷ target (codes "ftp://x") (pos 1) (codes "sftp") ∷ [] })
    ≡ bad_target 1 not_sftp_url ∷ bad_target 1 no_username ∷ bad_target 1 no_credentials ∷ []
unfolding validate
broken_sftp = refl
