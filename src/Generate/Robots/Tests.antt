-- ===== src/Generate/Robots/Tests.antt =====
-- Runs of `fetchRobotsInfo` on the lines of a file.
use sendit.Prelude.{◌≡◌, refl, [], ◌∷◌}
use sendit.Prelude.Text.{codes}
use sendit.Generate.Robots.{robots_info}

one_group :
    robots_info (
      codes "User-agent: *"
      ∷ codes "Disallow: /private"
      ∷ codes "Sitemap: https://a.b/s.xml"
      ∷ []
      ∷ codes "Disallow: /x"
      ∷ [])
    ≡ (codes "/private" ∷ [], codes "https://a.b/s.xml" ∷ [])
unfolding robots_info
one_group = refl

-- A group for two agents is not read as one for the wildcard among them.
two_agents :
    robots_info (codes "User-agent: *" ∷ codes "User-agent: bot" ∷ codes "Disallow: /private" ∷ [])
    ≡ ([], [])
unfolding robots_info
two_agents = refl
