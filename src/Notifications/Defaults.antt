-- ===== src/Notifications/Defaults.antt =====
-- The default preferences of a user.
use ai_customer_support_plat.Prelude.{
  ℕ, ◌≡◌, ◌∙◌, refl, ap, Bool, true, ◌&&◌, List, [], ◌∷◌, ◌++◌, Option, none, some, inl, inr,
  if◌then◌else◌, is_some, any, ◌==◌, ==_refl, Text, text_eq, text_eq_iff, arith, Bool-cases,
  Option-cases,
}
use ai_customer_support_plat.Notifications.Service.{
  NotificationPreference, NotificationTables, get_preference, default_event_types,
  default_preference, ensure_each, ensure_default_preferences,
}

abbrev pub is_listed : Text → List Text → Bool
is_listed ty tys = any (λ (t : Text). text_eq t ty) tys

-- What is found once the missing types of `u` were added.
abbrev pub with_defaults :
    ℕ → List Text → ℕ → Text → Option NotificationPreference → Option NotificationPreference
with_defaults u tys v ty (some p) = some p
with_defaults u tys v ty none =
    if u == v && is_listed ty tys then some (default_preference v ty) else none

get_preference-snoc :
    (v u : ℕ) (ty ty' : Text) (ps : List NotificationPreference)
    → get_preference v ty (ps ++ default_preference u ty' ∷ [])
      ≡ with_defaults u (ty' ∷ []) v ty (get_preference v ty ps)
unfolding get_preference
get_preference-snoc v u ty ty' [] = elim (Bool-cases (u == v && text_eq ty' ty)) [
  | inl x ↦
      let eu : u ≡ v = ground arith in
      let et : ty' ≡ ty = (text_eq_iff ty' ty).0 (ground arith) in ground arith
  | inr x ↦ ground arith
]
get_preference-snoc v u ty ty' (p ∷ ps) =
    elim (Bool-cases (p.user_id == v && text_eq p.event_type ty)) [
      | inl x ↦ rw (x, get_preference) refl
      | inr x ↦ rw (x, get_preference) (get_preference-snoc v u ty ty' ps)
    ]

with_defaults-cons :
    (u : ℕ) (t : Text) (tys : List Text) (v : ℕ) (ty : Text) (o : Option NotificationPreference)
    → with_defaults u tys v ty (with_defaults u (t ∷ []) v ty o) ≡ with_defaults u (t ∷ tys) v ty o
with_defaults-cons u t tys v ty (some p) = refl
with_defaults-cons u t tys v ty none = ground arith

-- A type that is there adds nothing to the missing ones.
known :
    (u : ℕ) (t : Text) (tys : List Text) (ps : List NotificationPreference) (v : ℕ) (ty : Text)
    → is_some (get_preference u t ps) ≡ true
    → with_defaults u tys v ty (get_preference v ty ps)
      ≡ with_defaults u (t ∷ tys) v ty (get_preference v ty ps)
known u t tys ps v ty h = elim (Option-cases (get_preference v ty ps)) [
  | inr (p, x) ↦ rw x refl
  | inl x ↦ elim (Bool-cases (u == v && text_eq t ty)) [
    | inl y ↦
        let eu : u ≡ v = ground arith in
        let et : t ≡ ty = (text_eq_iff t ty).0 (ground arith) in
        let e : get_preference u t ps ≡ none = rw (eu, et) x in absurd (ground arith)
    | inr y ↦ rw x (ground arith)
  ]
]

ensure_each_lem :
    (u : ℕ) (tys : List Text) (ps : List NotificationPreference) (v : ℕ) (ty : Text)
    → get_preference v ty (ensure_each u tys ps) ≡ with_defaults u tys v ty (get_preference v ty ps)
unfolding ensure_each
ensure_each_lem u [] ps v ty = elim (Option-cases (get_preference v ty ps)) [
  | inl x ↦ rw x (ground arith)
  | inr (p, x) ↦ rw x refl
]
ensure_each_lem u (t ∷ tys) ps v ty = elim (Bool-cases (is_some (get_preference u t ps))) [
  | inl x ↦ rw x (ensure_each_lem u tys ps v ty ∙ known u t tys ps v ty x)
  | inr x ↦ rw x (
      ensure_each_lem u tys (ps ++ default_preference u t ∷ []) v ty
      ∙ (ap (with_defaults u tys v ty) (get_preference-snoc v u ty t ps)
          ∙ with_defaults-cons u t tys v ty (get_preference v ty ps)))
]

ensure_each-present :
    (u : ℕ) (tys : List Text) (ps : List NotificationPreference)
    → ((ty : Text) → is_listed ty tys ≡ true → is_some (get_preference u ty ps) ≡ true)
    → ensure_each u tys ps ≡ ps
unfolding ensure_each
ensure_each-present u [] ps h = refl
ensure_each-present u (t ∷ tys) ps h =
    rw (h t (ground (arith, text_eq_iff t t)))
      (ensure_each-present u tys ps (λ ty q. h ty (ground arith)))

defaults-some :
    (u : ℕ) (ty : Text) (o : Option NotificationPreference)
    → is_listed ty default_event_types ≡ true
    → is_some (with_defaults u default_event_types u ty o) ≡ true
defaults-some u ty (some p) h = refl
defaults-some u ty none h = rw (==_refl u, h) refl

-- After `ensure_default_preferences` every preference that was there is found unchanged, each of the
-- five types that the user lacked is found with its default, and nothing else is found that was not
-- there; a second call changes nothing.
pub ensure_default_preferences_lem :
    (u : ℕ) (s : NotificationTables)
    → ((v : ℕ) (ty : Text)
        → get_preference v ty (ensure_default_preferences u s).preferences
          ≡ with_defaults u default_event_types v ty (get_preference v ty s.preferences))
      × (ensure_default_preferences u (ensure_default_preferences u s)
          ≡ ensure_default_preferences u s)
unfolding ensure_default_preferences
ensure_default_preferences_lem u s =
    let ps = ensure_each u default_event_types s.preferences in
    let found = ensure_each_lem u default_event_types s.preferences in
    let again : ensure_each u default_event_types ps ≡ ps =
      ensure_each-present u default_event_types ps (λ ty h.
        ap is_some (found u ty) ∙ defaults-some u ty (get_preference u ty s.preferences) h) in
    (found, ap (λ (rows : List NotificationPreference). record s { preferences = rows }) again)
