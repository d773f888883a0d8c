-- ===== src/Tags/Keys.antt =====
-- The lookup of a tag by organisation and name: what it finds, and which tags have one key.
use ai_customer_support_plat.Prelude.{
  ℕ, ◌≡◌, ◌∙◌, sym, ap, subst, true, false, ◌&&◌, List, [], ◌∷◌, ◌++◌, none, some, ◌==◌, Text,
  text_eq, text_eq_iff, arith, All, All-snoc, Bool-cases, inl, inr, is_some, if◌then◌else◌,
}
use ai_customer_support_plat.Tags.Service.{Tag, is_named, find_tag}
use ai_customer_support_plat.Tags.Links.{Differs, IsUnique, has_id}

pub find_tag-named :
    (org : ℕ) (n : Text) (t : Tag) (ts : List Tag)
    → find_tag org n ts ≡ some t
    → is_named org n t ≡ true
unfolding find_tag
find_tag-named org n t [] h = absurd (ground arith)
find_tag-named org n t (u ∷ ts) h = ground (arith, find_tag-named org n t ts)

pub find_tag-All :
    (P : Tag → Type 0) (org : ℕ) (n : Text) (t : Tag) (ts : List Tag)
    → All P ts
    → find_tag org n ts ≡ some t
    → P t
unfolding find_tag
find_tag-All P org n t [] a h = absurd (ground arith)
find_tag-All P org n t (u ∷ ts) a h = elim (Bool-cases (is_named org n u)) [
  | inl x ↦ let e : u ≡ t = ground arith in subst P e a.0
  | inr x ↦ find_tag-All P org n t ts a.1 (ground arith)
]

pub find_tag-has_id :
    (org : ℕ) (n : Text) (t : Tag) (ts : List Tag)
    → find_tag org n ts ≡ some t
    → has_id t.id ts ≡ true
unfolding find_tag has_id
find_tag-has_id org n t [] h = absurd (ground arith)
find_tag-has_id org n t (u ∷ ts) h = ground (arith, find_tag-has_id org n t ts)

same_id :
    (org org' : ℕ) (n n' : Text) (t t' : Tag) (ts : List Tag)
    → IsUnique ts
    → find_tag org n ts ≡ some t
    → find_tag org' n' ts ≡ some t'
    → t'.id ≡ t.id
    → t' ≡ t
unfolding find_tag
same_id org org' n n' t t' [] d h h' e = absurd (ground arith)
same_id org org' n n' t t' (u ∷ ts) d h h' e = elim (Bool-cases (is_named org n u)) [
  | inl x ↦ elim (Bool-cases (is_named org' n' u)) [
    | inl y ↦ ground arith
    | inr y ↦
        let eu : u ≡ t = ground arith in
        absurd (
          (find_tag-All (Differs u) org' n' t' ts d.0 (ground arith)).0
            (e ∙ ap (λ (x : Tag). x.id) (sym eu)))
  ]
  | inr x ↦ elim (Bool-cases (is_named org' n' u)) [
    | inl y ↦
        let eu : u ≡ t' = ground arith in
        absurd (
          (find_tag-All (Differs u) org n t ts d.0 (ground arith)).0
            (sym e ∙ ap (λ (x : Tag). x.id) (sym eu)))
    | inr y ↦ same_id org org' n n' t t' ts d.1 (ground arith) (ground arith) e
  ]
]

-- Two tags that are found have one identifier exactly when they are found by one key.
pub same_key :
    (org org' : ℕ) (n n' : Text) (t t' : Tag) (ts : List Tag)
    → IsUnique ts
    → find_tag org n ts ≡ some t
    → find_tag org' n' ts ≡ some t'
    → (t.id == t'.id) ≡ (org == org' && text_eq n n')
same_key org org' n n' t t' ts d h h' = elim (Bool-cases (org == org' && text_eq n n')) [
  | inl x ↦
      let eo : org ≡ org' = ground arith in
      let en : n ≡ n' = (text_eq_iff n n').0 (ground arith) in
      let ht : find_tag org n ts ≡ some t' = rw (eo, en) h' in ground arith
  | inr x ↦ elim (Bool-cases (t.id == t'.id)) [
    | inl y ↦
        let e : t' ≡ t = same_id org org' n n' t t' ts d h h' (ground arith) in
        let a : is_named org n t ≡ true = find_tag-named org n t ts h in
        let b : is_named org' n' t ≡ true =
          subst (λ v. is_named org' n' v ≡ true) e (find_tag-named org' n' t' ts h') in
        absurd (ground (arith, text_eq_iff t.name n, text_eq_iff t.name n', text_eq_iff n n'))
    | inr y ↦ ground arith
  ]
]

pub find_tag-snoc :
    (org : ℕ) (n : Text) (u : Tag) (ts : List Tag)
    → find_tag org n (ts ++ u ∷ []) ≡ (
        if is_some (find_tag org n ts)
        then find_tag org n ts
        else if is_named org n u
        then some u
        else none)
unfolding find_tag
find_tag-snoc org n u [] = ground arith
find_tag-snoc org n u (t ∷ ts) = ground (arith, find_tag-snoc org n u ts)

-- A new identifier under a key that is not taken keeps the rows unique.
pub IsUnique-snoc :
    (org i : ℕ) (n : Text) (ts : List Tag)
    → IsUnique ts
    → find_tag org n ts ≡ none
    → has_id i ts ≡ false
    → IsUnique (ts ++ record { id = i; organization_id = org; name = n } ∷ [])
unfolding find_tag has_id
IsUnique-snoc org i n [] d h f = (tt, tt)
IsUnique-snoc org i n (t ∷ ts) d h f = (
  All-snoc (Differs t) ts (record { id = i; organization_id = org; name = n }) d.0
      (ground arith, ground (arith, text_eq_iff t.name n, text_eq_iff n t.name)),
  IsUnique-snoc org i n ts d.1 (ground arith) (ground arith),
)
