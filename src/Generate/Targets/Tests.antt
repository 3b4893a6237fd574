-- ===== src/Generate/Targets/Tests.antt =====
-- Runs of `targetsFromFile`, `walkSafariNodes` and `deduplicateTargets`.
use sendit.Prelude.{◌≡◌, refl, false, [], ◌∷◌, ok, err}
use sendit.Prelude.Int.{pos, negsuc}
use sendit.Prelude.Text.{codes}
use sendit.Config.TargetsFile.{at_line, unknown_type}
use sendit.Engine.Reload.{urls}
use sendit.Generate.Targets.{
  default_target, targets_from_lines, visit_weight, nil, node, walk_safari_nodes,
}

two_lines :
    targets_from_lines false 0 (codes "# targets" ∷ codes "http://a HTTP 3" ∷ codes "b dns" ∷ []) []
    ≡ ok (
        default_target (codes "http://a") (codes "http") (pos 3)
        ∷ default_target (codes "b") (codes "dns") (pos 1)
        ∷ [])
unfolding targets_from_lines
two_lines = refl

-- The type grpc has no targets here.
no_grpc : targets_from_lines false 0 ([] ∷ codes "a:1 grpc" ∷ []) [] ≡ err (at_line 2 unknown_type)
unfolding targets_from_lines
no_grpc = refl

negative_visits : visit_weight (negsuc 4) ≡ pos 1
unfolding visit_weight
negative_visits = refl

folder :
    urls (
      walk_safari_nodes (
        node
          (codes "WebBookmarkTypeList")
          []
          (node (codes "WebBookmarkTypeLeaf") (codes "http://a") nil nil)
          (node (codes "WebBookmarkTypeLeaf") (codes "ftp://b") nil nil)))
    ≡ codes "http://a" ∷ []
unfolding walk_safari_nodes
folder = refl
