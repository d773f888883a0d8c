-- ===== src/Tags/Facts.antt =====
-- Which tags the tables hold, as a relation of owners and names, and what each change of rows does to
-- it.
use ai_customer_support_plat.Prelude.{
  ℕ, ◌≡◌, ◌∙◌, refl, sym, ap, Bool, true, false, ◌&&◌, ◌||◌, List, [], ◌∷◌, ◌++◌, none, some, ◌==◌,
  Text, text_eq, text_eq_iff, arith, All, Bool-cases, Option-cases, inl, inr,
}
use ai_customer_support_plat.Tags.Service.{
  Tag, Link, TagTables, is_named, find_tag, has_link, add_link,
}
use ai_customer_support_plat.Tags.Links.{IsLinkedOnce, IsUnique, has_id, has_link-add}
use ai_customer_support_plat.Tags.Keys.{same_key, find_tag-snoc}

-- Every link's tag exists.
abbrev pub IsKnown : List Tag → List Link → Type 0
IsKnown tags = All (λ (l : Link). has_id l.tag_id tags ≡ true)

-- What the unique constraints and the foreign keys of the tables state.
pub record IsValid (s : TagTables) : Type 0 where
  pub unique : IsUnique s.tags
  pub conversations_once : IsLinkedOnce s.conversation_tags
  pub tickets_once : IsLinkedOnce s.ticket_tags
  pub conversations_known : IsKnown s.tags s.conversation_tags
  pub tickets_known : IsKnown s.tags s.ticket_tags

-- The owner has the organisation's tag of that name.
unfoldable pub is_tagged : ℕ → ℕ → Text → List Tag → List Link → Bool
is_tagged org owner n tags links = elim (find_tag org n tags) [
  | none ↦ false
  | some t ↦ has_link owner t.id links
]

pub is_tagged-none :
    (org o : ℕ) (n : Text) (tags : List Tag) (links : List Link)
    → find_tag org n tags ≡ none
    → is_tagged org o n tags links ≡ false
unfolding is_tagged
is_tagged-none org o n tags links h = rw (h, is_tagged) refl

abbrev pub is_key : ℕ → ℕ → Text → ℕ → ℕ → Text → Bool
is_key org o n org' o' n' = o == o' && (org == org' && text_eq n n')

pub is_tagged-add :
    (org o : ℕ) (n : Text) (t : Tag) (tags : List Tag) (links : List Link)
    → IsUnique tags
    → find_tag org n tags ≡ some t
    → (org' o' : ℕ) (n' : Text)
    → is_tagged org' o' n' tags (add_link o t.id links).1
      ≡ (is_tagged org' o' n' tags links || is_key org o n org' o' n')
unfolding is_tagged
is_tagged-add org o n t tags links d h org' o' n' = elim (Option-cases (find_tag org' n' tags)) [
  | inl x ↦ elim (Bool-cases (is_key org o n org' o' n')) [
    | inl y ↦
        let eo : org ≡ org' = ground arith in
        let en : n ≡ n' = (text_eq_iff n n').0 (ground arith) in
        let e : find_tag org n tags ≡ none = rw (eo, en) x in absurd (ground arith)
    | inr y ↦ rw (x, is_tagged) (sym y)
  ]
  | inr (t', x) ↦
      rw (x, is_tagged)
        (has_link-add o t.id o' t'.id links
          ∙ ap (λ b. has_link o' t'.id links || (o == o' && b))
              (same_key org org' n n' t t' tags d h x))
]

pub has_link-unknown :
    (o i : ℕ) (tags : List Tag) (links : List Link)
    → IsKnown tags links
    → has_id i tags ≡ false
    → has_link o i links ≡ false
unfolding has_link
has_link-unknown o i tags [] k f = refl
has_link-unknown o i tags (l ∷ links) k f = elim (Bool-cases (l.tag_id == i)) [
  | inl x ↦
      let e : l.tag_id ≡ i = ground arith in
      let a : has_id i tags ≡ true = rw (sym e) k.0 in absurd (ground arith)
  | inr x ↦ ground (arith, has_link-unknown o i tags links k.1 f)
]

module _ (org i : ℕ) (n : Text) (tags : List Tag) where
  abbrev pub new_tag : Tag
  new_tag = record { id = i; organization_id = org; name = n }

  pub is_tagged-create :
      (links : List Link)
      → IsKnown tags links
      → has_id i tags ≡ false
      → (org' o' : ℕ) (n' : Text)
      → is_tagged org' o' n' (tags ++ new_tag ∷ []) links ≡ is_tagged org' o' n' tags links
  unfolding is_tagged
  is_tagged-create links k f org' o' n' = elim (Option-cases (find_tag org' n' tags)) [
    | inl x ↦ elim (Bool-cases (is_named org' n' new_tag)) [
      | inl y ↦
          ground (arith, find_tag-snoc org' n' new_tag tags, has_link-unknown o' i tags links k f)
      | inr y ↦ ground (arith, find_tag-snoc org' n' new_tag tags)
    ]
    | inr (t', x) ↦ ground (arith, find_tag-snoc org' n' new_tag tags)
  ]

  pub find_tag-create :
      find_tag org n tags ≡ none → find_tag org n (tags ++ new_tag ∷ []) ≡ some new_tag
  find_tag-create h = ground (arith, find_tag-snoc org n new_tag tags, text_eq_iff n n)
