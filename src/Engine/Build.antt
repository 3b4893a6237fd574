-- ===== src/Engine/Build.antt =====
-- internal/engine/engine.go: the drivers and the writers of `New`.
-- Whether a file can be opened for writing is a parameter; a writer's goroutine runs from the moment that its
-- file is open.
pub mod Orphans
pub mod Known
mod Tests
use sendit.Prelude.{
  ℕ, Bool, true, false, List, [], ◌∷◌, ◌++◌, Option, none, some, if◌then◌else◌, Result, ok, err,
}
use sendit.Prelude.Text.{Text, codes}
use sendit.Config.Schema.{Micro, Config}
use sendit.Config.Validate.{is_empty}
use sendit.Task.Selector.{SelectorError}
use sendit.Engine.Reload.{Engine, new_engine}

-- The keys of `e.drivers`.
abbrev pub drivers : List Text
drivers =
    codes "http"
    ∷ codes "browser"
    ∷ codes "dns"
    ∷ codes "websocket"
    ∷ codes "grpc"
    ∷ codes "sftp"
    ∷ []

pub data BuildError : Type 0 where
  bad_targets : SelectorError → BuildError
  no_output_writer no_pcap_writer : BuildError

-- The engine with the files of its two writers, if it has them.
pub record Built (L : Type 0) : Type 0 where
  pub engine : Engine L
  pub writer : Option Text
  pub pcap_writer : Option Text

module _ {L : Type 0} (new_limiter : Micro → ℕ → ℕ → L) (opens : Text → Bool) where
  -- The store of `e.pcapWriter`, once the output writer is made: the files that were opened, and the result.
  unfoldable pub with_pcap_writer :
      Config → Engine L → Option Text → List Text × Result BuildError (Built L)
  unfolding is_empty
  with_pcap_writer cfg e writer =
      let held : List Text = elim writer [ none ↦ [] | some f ↦ f ∷ [] ] in
      let path = cfg.output.pcap_file in
      if is_empty path
      then (held, ok (record { engine = e; writer = writer; pcap_writer = none }))
      else if opens path
      then (
        held ++ (path ∷ []),
        ok (record { engine = e; writer = writer; pcap_writer = some path }),
      )
      else (held, err no_pcap_writer)

  -- `New`: the files that it opened, and what it returns.
  unfoldable pub build : Config → ℕ → List Text × Result BuildError (Built L)
  unfolding new_engine with_pcap_writer
  build cfg now = elim (new_engine new_limiter cfg now) [
    | err e ↦ ([], err (bad_targets e))
    | ok e ↦
        if cfg.output.enabled
        then (if opens cfg.output.file
            then with_pcap_writer cfg e (some cfg.output.file)
            else ([], err no_output_writer))
        else with_pcap_writer cfg e none
  ]
