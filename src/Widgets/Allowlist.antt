-- ===== src/Widgets/Allowlist.antt =====
-- Which hosts the allowlist admits.
use ai_customer_support_plat.Prelude.{
  take, drop, starts_with, ends_with, ℕ, zero, suc, ◌+◌, ◌-◌, leb, leb_iff, ◌≡◌, ◌↔◌, ◌⊎◌, ◌∙◌,
  refl, sym, ap, subst, inl, inr, true, false, List, [], ◌∷◌, ◌++◌, some, length, length-append,
  any, contains, arith, Bool-cases, Text, text_eq_iff, is_empty, lower,
}
use ai_customer_support_plat.Widgets.DomainGuard.{
  rstrip_dots, allow, has_label, entry_matches, host_matches_allowlist,
}

take-drop : (n : ℕ) (s : Text) → take n s ++ drop n s ≡ s
unfolding take drop
take-drop zero s = refl
take-drop (suc n) [] = refl
take-drop (suc n) (c ∷ s) = ap (λ t. c ∷ t) (take-drop n s)

take-length_append : (s t : Text) → take (length s) (s ++ t) ≡ s
unfolding take
take-length_append [] t = refl
take-length_append (c ∷ s) t = ap (λ r. c ∷ r) (take-length_append s t)

drop-length_append : (s t : Text) → drop (length s) (s ++ t) ≡ t
unfolding drop
drop-length_append [] t = refl
drop-length_append (c ∷ s) t = drop-length_append s t

-- A host that one more label stands before.
pub record IsSubdomain (host suffix : Text) : Type 0 where
  pub label : Text
  pub split : host ≡ label ++ b'.' ∷ suffix
  pub nonempty : is_empty label ≡ false
  pub single : contains b'.' label ≡ false

length-rest : (label t : Text) → length (label ++ t) - length t ≡ length label
length-rest label t = omega (arith, length-append label t)

length-cons : (c : ℕ) (s : Text) → length s + 1 ≡ length (c ∷ s)
length-cons c s = omega arith

leb-rest : (label t : Text) → leb (length t) (length (label ++ t)) ≡ true
leb-rest label t = (leb_iff _ _).1 (omega (arith, length-append label t))

ends_with-append : (label t : Text) → ends_with (label ++ t) t ≡ true
unfolding ends_with
ends_with-append label t =
    rw (leb-rest label t, length-rest label t, drop-length_append label t)
      ((text_eq_iff t t).1 refl)

ends_with-split : (s t : Text) → ends_with s t ≡ true → s ≡ take (length s - length t) s ++ t
unfolding ends_with
ends_with-split s t h =
    sym (take-drop (length s - length t) s)
    ∙ ap (λ r. take (length s - length t) s ++ r) ((text_eq_iff _ t).0 (ground arith))

has_label-IsSubdomain :
    (host suffix : Text) → has_label host suffix ≡ true → IsSubdomain host suffix
unfolding has_label
has_label-IsSubdomain host suffix h = record {
  label = take (length host - (length suffix + 1)) host;
  split =
      subst (λ n. host ≡ take (length host - n) host ++ b'.' ∷ suffix)
        (sym (length-cons b'.' suffix)) (ends_with-split host (b'.' ∷ suffix) (ground arith));
  nonempty = ground arith;
  single = ground arith;
}

has_label-append :
    (label suffix : Text)
    → is_empty label ≡ false
    → contains b'.' label ≡ false
    → has_label (label ++ b'.' ∷ suffix) suffix ≡ true
unfolding has_label
has_label-append label suffix e c =
    rw
      (
        ends_with-append label (b'.' ∷ suffix),
        length-cons b'.' suffix,
        length-rest label (b'.' ∷ suffix),
        take-length_append label (b'.' ∷ suffix),
        e,
        c,
      )
      refl

IsSubdomain-has_label :
    (host suffix : Text) → IsSubdomain host suffix → has_label host suffix ≡ true
IsSubdomain-has_label host suffix h =
    subst (λ s. has_label s suffix ≡ true) (sym h.split)
      (has_label-append h.label suffix h.nonempty h.single)

-- An entry is a host, or a suffix after `*.` that stands for the hosts with one more label.
abbrev pub IsAdmitted : Text → Text → Type 0
IsAdmitted host entry =
    ((starts_with (b'*' ∷ b'.' ∷ []) entry ≡ false) × (host ≡ entry))
    ⊎ ((suffix : Text) × (entry ≡ b'*' ∷ b'.' ∷ suffix)
        × (is_empty suffix ≡ false)
        × IsSubdomain host suffix)

-- Some entry of the list admits the host.
abbrev pub IsListed : Text → List Text → Type 0
IsListed host [] = ⊥
IsListed host (entry ∷ entries) = IsAdmitted host entry ⊎ IsListed host entries

starts-split :
    (entry : Text)
    → starts_with (b'*' ∷ b'.' ∷ []) entry ≡ true
    → entry ≡ b'*' ∷ b'.' ∷ drop 2 entry
unfolding starts_with drop
starts-split [] h = ground arith
starts-split (c ∷ []) h = ground arith
starts-split (c ∷ d ∷ s) h = ground (arith)

entry_matches-IsAdmitted :
    (host entry : Text) → entry_matches host entry ≡ true → IsAdmitted host entry
unfolding entry_matches
entry_matches-IsAdmitted host entry h = elim (Bool-cases (starts_with (b'*' ∷ b'.' ∷ []) entry)) [
  | inl wild ↦ inr (
    drop 2 entry,
    starts-split entry wild,
    ground arith,
    has_label-IsSubdomain host (drop 2 entry) (ground arith),
  )
  | inr plain ↦ inl (plain, (text_eq_iff host entry).0 (ground arith))
]

IsAdmitted-entry_matches :
    (host entry : Text) → IsAdmitted host entry → entry_matches host entry ≡ true
unfolding entry_matches starts_with drop
IsAdmitted-entry_matches host entry (inl (plain, same)) = rw plain ((text_eq_iff host entry).1 same)
IsAdmitted-entry_matches host entry (inr (suffix, e, some_suffix, sub)) =
    rw e (rw (some_suffix, IsSubdomain-has_label host suffix sub) refl)

any-IsListed :
    (host : Text) (entries : List Text)
    → any (entry_matches host) entries ≡ true
    → IsListed host entries
any-IsListed host [] h = absurd (ground arith)
any-IsListed host (entry ∷ entries) h = elim (Bool-cases (entry_matches host entry)) [
  | inl here ↦ inl (entry_matches-IsAdmitted host entry here)
  | inr there ↦ inr (any-IsListed host entries (ground arith))
]

IsListed-any :
    (host : Text) (entries : List Text)
    → IsListed host entries
    → any (entry_matches host) entries ≡ true
IsListed-any host [] h = absurd h
IsListed-any host (entry ∷ entries) (inl a) = ground (arith, IsAdmitted-entry_matches host entry a)
IsListed-any host (entry ∷ entries) (inr l) = ground (arith, IsListed-any host entries l)

-- A host passes the allowlist exactly when it is not empty and, in lower case and without its last
-- dots, is an entry of the normalized list that has no wildcard, or is one non-empty label without a
-- dot before the suffix of an entry `*.suffix`.
pub host_matches_allowlist-IsListed :
    (host : Text) (domains : List Text)
    → (host_matches_allowlist (some host) domains ≡ true)
      ↔ ((is_empty host ≡ false) × IsListed (lower (rstrip_dots host)) (allow domains))
unfolding host_matches_allowlist
host_matches_allowlist-IsListed host domains = elim (Bool-cases (is_empty host)) [
  | inl gone ↦ rw gone (λ h. absurd (ground arith), λ h. absurd (ground (arith, h.0)))
  | inr there ↦ rw there (
    λ h. (refl, any-IsListed (lower (rstrip_dots host)) (allow domains) h),
    λ h. IsListed-any (lower (rstrip_dots host)) (allow domains) h.1,
  )
]
