-- ===== src/Widgets/DomainGuard.antt =====
-- backend/app/modules/widgets/domain_guard.py: `host_matches_allowlist`, on ASCII text.
use ai_customer_support_plat.Prelude.{
  ◌+◌, ◌-◌, ◌==◌, Bool, false, not, ◌&&◌, List, [], ◌∷◌, Option, none, some, if◌then◌else◌, length,
  filter_by, any, contains, map, Text, text_eq, is_empty, strip, lower, take, drop, starts_with,
  ends_with,
}
use mathlib.Core.List.{reverse}

unfoldable pub drop_dots : Text → Text
drop_dots [] = []
drop_dots (c ∷ s) = if c == b'.' then drop_dots s else c ∷ s

-- `s.rstrip(".")`
unfoldable pub rstrip_dots : Text → Text
rstrip_dots s = reverse (drop_dots (reverse s))

-- The normalized entries, without the blank ones.
unfoldable pub allow : List Text → List Text
allow domains =
    map (λ d. rstrip_dots (lower (strip d)))
      (filter_by (λ d. not (is_empty d) && not (is_empty (strip d))) domains)

-- `host` is `suffix` after exactly one more label.
unfoldable pub has_label : Text → Text → Bool
has_label host suffix =
    let prefix = take (length host - (length suffix + 1)) host in
    ends_with host (b'.' ∷ suffix) && (not (is_empty prefix) && not (contains b'.' prefix))

-- The body of the loop over the entries.
unfoldable pub entry_matches : Text → Text → Bool
entry_matches host entry =
    if starts_with (b'*' ∷ b'.' ∷ []) entry
    then not (is_empty (drop 2 entry)) && has_label host (drop 2 entry)
    else text_eq host entry

unfoldable pub host_matches_allowlist : Option Text → List Text → Bool
host_matches_allowlist none domains = false
host_matches_allowlist (some host) domains =
    if is_empty host then false else any (entry_matches (lower (rstrip_dots host))) (allow domains)
