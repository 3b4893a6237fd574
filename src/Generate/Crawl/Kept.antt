-- ===== src/Generate/Crawl/Kept.antt =====
-- cmd/sendit/generate.go: the URLs that `targetsFromCrawl` has marked, queued and listed.
use sendit.Prelude.{
  ℕ, ◌≡◌, refl, sym, ap, subst, ◌∙◌, Bool, true, List, [], ◌∷◌, ◌++◌, append_assoc, All, All-append,
  arith, Bool-cases, inl, inr, All-mono, All-drop,
}
use sendit.Prelude.Int.{pos}
use sendit.Prelude.Text.{Text, codes, text_eq_refl, one_of}
use sendit.Prelude.Distinct.{IsDistinct, IsDistinct-snoc, IsDistinct-drop, one_of-none}
use sendit.Config.Schema.{TargetConfig}
use sendit.Engine.Reload.{urls}
use sendit.Generate.Targets.{default_target}
use sendit.Generate.Crawl.{Item, Crawl, offer, offer_all}

abbrev pub item_urls : List Item → List Text
item_urls [] = []
item_urls (i ∷ is) = i.url ∷ item_urls is

-- All URLs that the crawl has taken in: the targets' and the queue's.
abbrev pub taken : Crawl → List Text
taken c = urls c.targets ++ item_urls c.queue

item_urls-append : (xs ys : List Item) → item_urls (xs ++ ys) ≡ item_urls xs ++ item_urls ys
item_urls-append [] ys = refl
item_urls-append (x ∷ xs) ys = ap (◌∷◌ x.url) (item_urls-append xs ys)

pub urls-append : (xs ys : List TargetConfig) → urls (xs ++ ys) ≡ urls xs ++ urls ys
urls-append [] ys = refl
urls-append (x ∷ xs) ys = ap (◌∷◌ x.url) (urls-append xs ys)

-- What the URLs taken in keep, with a property `P` of each.
pub record Kept (P : Text → Type 0) (c : Crawl) : Type 0 where
  pub distinct : IsDistinct (taken c)
  pub marked : All (λ u. one_of u c.visited ≡ true) (taken c)
  pub each : All P (taken c)

pub offer-Kept :
    (P : Text → Type 0) (c : Crawl) (url : Text) (depth : ℕ) (sitemap : Bool)
    → P url
    → Kept P c
    → Kept P (offer c url depth sitemap)
unfolding offer one_of
offer-Kept P c url depth sitemap p k = elim (Bool-cases (one_of url c.visited)) [
  | inl old ↦ rw (old, offer) k
  | inr new ↦
      let item : Item = record { url = url; depth = depth; sitemap = sitemap } in
      let longer : urls c.targets ++ item_urls (c.queue ++ (item ∷ [])) ≡ taken c ++ (url ∷ []) =
        ap (λ l. urls c.targets ++ l) (item_urls-append c.queue (item ∷ []))
        ∙ sym (append_assoc (urls c.targets) (item_urls c.queue) (url ∷ [])) in
      rw (new, offer)
        (record {
          distinct = subst IsDistinct (sym longer) (
              IsDistinct-snoc (taken c) url k.distinct
                (one_of-none c.visited url (taken c) k.marked new));
          marked = subst (All (λ u. one_of u (url ∷ c.visited) ≡ true)) (sym longer) (
              All-append (λ u. one_of u (url ∷ c.visited) ≡ true) (taken c) (url ∷ [])
                (All-mono (λ u. one_of u c.visited ≡ true) (λ u. one_of u (url ∷ c.visited) ≡ true)
                  (λ u m. ground (arith, m)) (taken c) k.marked)
                (ground (arith, text_eq_refl url), tt));
          each = subst (All P) (sym longer) (All-append P (taken c) (url ∷ []) k.each (p, tt));
        })
]

pub offer_all-Kept :
    (P : Text → Type 0) (is_sitemap : Text → Bool) (depth : ℕ) (c : Crawl) (us : List Text)
    → All P us
    → Kept P c
    → Kept P (offer_all is_sitemap depth c us)
unfolding offer_all
offer_all-Kept P is_sitemap depth c [] h k = k
offer_all-Kept P is_sitemap depth c (u ∷ us) h k =
    offer_all-Kept P is_sitemap depth (offer c u depth (is_sitemap u)) us h.1
      (offer-Kept P c u depth (is_sitemap u) h.0 k)

-- The queue without its first element.
pub pop-Kept :
    (P : Text → Type 0) (c : Crawl) (item : Item) (rest : List Item)
    → c.queue ≡ item ∷ rest
    → Kept P c
    → Kept P (record c { queue = rest })
pop-Kept P c item rest e k =
    let here : taken c ≡ urls c.targets ++ (item.url ∷ item_urls rest) =
      ap (λ q. urls c.targets ++ item_urls q) e in
    record {
      distinct =
          IsDistinct-drop (urls c.targets) item.url (item_urls rest)
            (subst IsDistinct here k.distinct);
      marked =
          All-drop (λ u. one_of u c.visited ≡ true) (urls c.targets) item.url (item_urls rest)
            (subst (All (λ u. one_of u c.visited ≡ true)) here k.marked);
      each = All-drop P (urls c.targets) item.url (item_urls rest) (subst (All P) here k.each);
    }

-- The first element of the queue as a target.
pub take-Kept :
    (P : Text → Type 0) (c : Crawl) (item : Item) (rest : List Item)
    → c.queue ≡ item ∷ rest
    → Kept P c
    → Kept P (record c {
      queue = rest;
      targets = c.targets ++ (default_target item.url (codes "http") (pos 1) ∷ []);
    })
unfolding default_target
take-Kept P c item rest e k =
    let t : TargetConfig = default_target item.url (codes "http") (pos 1) in
    let same : taken c ≡ urls (c.targets ++ (t ∷ [])) ++ item_urls rest =
      ap (λ q. urls c.targets ++ item_urls q) e
      ∙ sym (append_assoc (urls c.targets) (item.url ∷ []) (item_urls rest))
      ∙ ap (λ l. l ++ item_urls rest) (sym (urls-append c.targets (t ∷ []))) in
    record {
      distinct = subst IsDistinct same k.distinct;
      marked = subst (All (λ u. one_of u c.visited ≡ true)) same k.marked;
      each = subst (All P) same k.each;
    }

pub offer-targets :
    (c : Crawl) (url : Text) (depth : ℕ) (sitemap : Bool)
    → (offer c url depth sitemap).targets ≡ c.targets
unfolding offer
offer-targets c url depth sitemap = elim (Bool-cases (one_of url c.visited)) [
  | inl old ↦ rw (old, offer) refl
  | inr new ↦ rw (new, offer) refl
]

pub offer_all-targets :
    (is_sitemap : Text → Bool) (depth : ℕ) (c : Crawl) (us : List Text)
    → (offer_all is_sitemap depth c us).targets ≡ c.targets
unfolding offer_all
offer_all-targets is_sitemap depth c [] = refl
offer_all-targets is_sitemap depth c (u ∷ us) =
    offer_all-targets is_sitemap depth (offer c u depth (is_sitemap u)) us
    ∙ offer-targets c u depth (is_sitemap u)
