-- ===== src/Generate/Url/Normal.antt =====
-- cmd/sendit/generate.go: a URL that `normalizeCrawlURL` has changed is in normal form.
use sendit.Prelude.{
  ℕ, ◌≤◌, length, ◌≡◌, refl, ap, ◌&&◌, ◌==◌, [], ◌∷◌, arith, Bool-cases, inl, inr, ◌⊎◌, ◌≢◌,
}
use sendit.Prelude.Text.{Text, codes, text_eq}
use sendit.Config.Validate.{is_empty}
use sendit.Generate.Url.{Url, trim_slashes, normalize_path, normalize_crawl_url}

trim_slashes-trim_slashes : (s : Text) → trim_slashes (trim_slashes s) ≡ trim_slashes s
unfolding trim_slashes is_empty
trim_slashes-trim_slashes [] = refl
trim_slashes-trim_slashes (c ∷ s) = elim (Bool-cases (is_empty (trim_slashes s) && c == b'/')) [
  | inl gone ↦ rw gone refl
  | inr kept ↦ ground (arith, kept, trim_slashes-trim_slashes s)
]

trimmed_stays : (q : Text) → trim_slashes q ≡ q → q ≢ [] → normalize_path q ≡ q
unfolding normalize_path
trimmed_stays [] e h = absurd (h refl)
trimmed_stays (c ∷ s) e h = elim (Bool-cases (text_eq (c ∷ s) (codes "/"))) [
  | inl root ↦ rw (root, normalize_path) refl
  | inr other ↦ rw (other, normalize_path) e
]

-- At most one byte, or something beside slashes.
abbrev pub IsPlain : Text → Type 0
IsPlain p = (length p ≤ 1) ⊎ (trim_slashes p ≢ [])

short : (c : ℕ) (s : Text) → length (c ∷ s) ≤ 1 → s ≡ []
short c [] h = refl
short c (d ∷ s) h = absurd (omega arith)

one_byte : (c : ℕ) → normalize_path (normalize_path (c ∷ [])) ≡ normalize_path (c ∷ [])
unfolding normalize_path trim_slashes is_empty text_eq
one_byte c = ground arith

normalize_path_again : (p : Text) → IsPlain p → normalize_path (normalize_path p) ≡ normalize_path p
unfolding normalize_path
normalize_path_again [] h = refl
normalize_path_again (c ∷ s) (inl h) = rw (short c s h) (one_byte c)
normalize_path_again (c ∷ s) (inr h) = elim (Bool-cases (text_eq (c ∷ s) (codes "/"))) [
  | inl root ↦ rw (root, normalize_path) (rw (root, normalize_path) refl)
  | inr other ↦
      rw (other, normalize_path)
        (trimmed_stays (trim_slashes (c ∷ s)) (trim_slashes-trim_slashes (c ∷ s)) h)
]

-- Normalising a URL twice is the same as normalising it once, if its path is at most one byte long or
-- has something beside slashes.
pub normalize-normalize :
    (u : Url) → IsPlain u.path → normalize_crawl_url (normalize_crawl_url u) ≡ normalize_crawl_url u
unfolding normalize_crawl_url
normalize-normalize u h =
    ap (λ p. record u { fragment = []; raw_query = []; path = p }) (normalize_path_again u.path h)
