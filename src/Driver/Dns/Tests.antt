-- ===== src/Driver/Dns/Tests.antt =====
-- internal/driver/dns.go and internal/driver/browser.go: runs with libraries that are given.
use sendit.Prelude.{◌≡◌, refl, [], ◌∷◌, none, some, if◌then◌else◌, ok, err}
use sendit.Prelude.Text.{Text, codes, text_eq}
use sendit.Config.Samples.{plain_dns, plain_browser}
use sendit.Driver.Dns.{Resolver, unknown_record_type, dns_execute, navigate, wait_visible, actions}

abbrev small_resolver : Resolver Text
small_resolver = record {
  to_upper = λ s. s;
  type_of = λ s. if text_eq s (codes "A") then some 1 else none;
  fqdn = λ s. s;
  exchange = λ resolver name qtype. ok 3;
}

not_found : dns_execute small_resolver (codes "a") (record plain_dns { record_type = [] }) ≡ ok 404
unfolding dns_execute text_eq
not_found = refl

unknown_type :
    dns_execute small_resolver (codes "a") (record plain_dns { record_type = codes "B" })
    ≡ err (unknown_record_type (codes "B"))
unfolding dns_execute text_eq
unknown_type = refl

waits :
    actions (codes "a") (record plain_browser { wait_for_selector = codes "b" })
    ≡ navigate (codes "a") ∷ wait_visible (codes "b") ∷ []
unfolding actions
waits = refl
