-- ===== src/Widgets/Tests.antt =====
-- Two calls per ten seconds.
use ai_customer_support_plat.Prelude.{
  take, drop, starts_with, ends_with, ℕ, ◌≡◌, ◌↔◌, refl, true, false, List, [], ◌∷◌, some, arith,
  codes, Text, text_eq, is_empty, is_space, lstrip, strip, lower_code, lower,
}
use ai_customer_support_plat.Widgets.RateLimit.{Limits, expire, admit, set_bucket, check, check_all}
use ai_customer_support_plat.Widgets.Window.{recent, count_all, check_all-counts}
use ai_customer_support_plat.Widgets.DomainGuard.{
  drop_dots, rstrip_dots, allow, has_label, entry_matches, host_matches_allowlist,
}
use ai_customer_support_plat.Widgets.Allowlist.{IsListed, host_matches_allowlist-IsListed}

service : Unit {0}
unfolding expire admit set_bucket check check_all recent count_all text_eq is_empty is_space lstrip
    strip lower_code lower take drop starts_with ends_with drop_dots rstrip_dots allow has_label
    entry_matches host_matches_allowlist
service = tt

abbrev limits : Limits
limits = record { max_requests = 2; window_seconds = 10 }

abbrev calls : List (ℕ × ℕ)
calls = (7, 1) ∷ (7, 4) ∷ (7, 9) ∷ (8, 9) ∷ (7, 12) ∷ []

check_all_test : (check_all limits calls (λ key. [])).0 ≡ true ∷ true ∷ false ∷ true ∷ true ∷ []
unfolding service
check_all_test = refl

check_all-counts_example :
    (check_all limits calls (λ key. [])).0 ≡ count_all limits calls (λ key. [])
check_all-counts_example =
    check_all-counts limits calls
      (omega arith, (omega arith, (omega arith, (omega arith, (omega arith, tt)))))

abbrev domains : List Text
domains = codes " *.Example.com. " ∷ codes "shop.org" ∷ []

allowlist_tests :
    (host_matches_allowlist (some (codes "A.example.com")) domains ≡ true)
    × (host_matches_allowlist (some (codes "example.com")) domains ≡ false)
    × (host_matches_allowlist (some (codes "a.b.example.com")) domains ≡ false)
    × (host_matches_allowlist (some (codes "shop.org.")) domains ≡ true)
unfolding service
allowlist_tests = (refl, refl, refl, refl)

host_matches_allowlist-IsListed_example :
    (host_matches_allowlist (some (codes "A.example.com")) domains ≡ true) ↔ (
      (is_empty (codes "A.example.com") ≡ false)
      × IsListed (lower (rstrip_dots (codes "A.example.com"))) (allow domains))
host_matches_allowlist-IsListed_example =
    host_matches_allowlist-IsListed (codes "A.example.com") domains
