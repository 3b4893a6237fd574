-- ===== src/Driver/Dns.antt =====
-- internal/driver/dns.go and internal/driver/browser.go. The DNS library and chromedp are parameters.
pub mod Classes
mod Tests
use sendit.Prelude.{
  ℕ, ◌≡◌, refl, Bool, ◌==◌, ◌↔◌, List, [], ◌∷◌, ◌++◌, Option, none, some, if◌then◌else◌, Result, ok,
  err, arith,
}
use sendit.Prelude.Int.{ℤ, pos, leb_ℤ}
use sendit.Prelude.Text.{Text, codes}
use sendit.Config.Schema.{DnsConfig, BrowserConfig}
use sendit.Config.Validate.{is_empty}
use sendit.Ratelimit.Classify.{ErrorClass, classify_status_code}

unfoldable pub rcode_to_http : ℕ → ℕ
rcode_to_http rcode =
    if rcode == 0
    then 200
    else if rcode == 3
    then 404
    else if rcode == 5
    then 403
    else if rcode == 2
    then 503
    else 502

-- `StringToType`, and an exchange of a name and a type with a resolver: the code of its answer, or the
-- error of the exchange or of the context, whichever comes first. `to_upper` is `strings.ToUpper`.
pub record Resolver (E : Type 0) : Type 0 where
  pub to_upper : Text → Text
  pub type_of : Text → Option ℕ
  pub fqdn : Text → Text
  pub exchange : Text → Text → ℕ → Result E ℕ

pub data DnsError (E : Type 0) : Type 0 where
  unknown_record_type : Text → DnsError E
  exchange_failed : E → DnsError E

-- `Execute`: the status, or an error.
unfoldable pub dns_execute : {E : Type 0} → Resolver E → Text → DnsConfig → Result (DnsError E) ℕ
unfolding is_empty rcode_to_http
dns_execute r url cfg =
    let resolver = if is_empty cfg.resolver then codes "8.8.8.8:53" else cfg.resolver in
    let upper = r.to_upper cfg.record_type in
    let record_type = if is_empty upper then codes "A" else upper in
    elim (r.type_of record_type) [
      | none ↦ err (unknown_record_type record_type)
      | some qtype ↦ elim (r.exchange resolver (r.fqdn url) qtype) [
        | err e ↦ err (exchange_failed e)
        | ok rcode ↦ ok (rcode_to_http rcode)
      ]
    ]

-- What the browser is told to do.
pub data Action : Type 0 where
  navigate : (url : Text) → Action
  wait_visible : (selector : Text) → Action
  evaluate : (script : Text) → Action
  sleep_ms : (n : ℕ) → Action

unfoldable pub actions : Text → BrowserConfig → List Action
unfolding is_empty
actions url cfg =
    (navigate url ∷ [])
    ++ (if is_empty cfg.wait_for_selector then [] else wait_visible cfg.wait_for_selector ∷ [])
    ++ (if cfg.scroll
        then evaluate (codes "window.scrollTo(0, document.body.scrollHeight / 2)")
          ∷ sleep_ms 500
          ∷ evaluate (codes "window.scrollTo(0, document.body.scrollHeight)")
          ∷ []
        else [])

unfoldable pub browser_timeout_s : BrowserConfig → ℤ
browser_timeout_s cfg = if leb_ℤ cfg.timeout_s (pos 0) then pos 30 else cfg.timeout_s

-- `Execute` of the browser, with chromedp's run of the actions within a number of seconds, if it fails.
unfoldable pub browser_execute :
    {E : Type 0} → (ℤ → List Action → Option E) → Text → BrowserConfig → Result E ℕ
unfolding actions browser_timeout_s
browser_execute run url cfg = elim (run (browser_timeout_s cfg) (actions url cfg)) [
  | some e ↦ err e
  | none ↦ ok 200
]
