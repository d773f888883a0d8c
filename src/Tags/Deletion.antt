-- ===== src/Tags/Deletion.antt =====
-- What deleting a tag does: the tag, its links, and nothing else.
use ai_customer_support_plat.Prelude.{
  ℕ, ◌≡◌, ◌∙◌, refl, sym, subst, Bool, true, false, not, ◌&&◌, List, [], ◌∷◌, none, some, ◌==◌,
  filter_by, Text, text_eq, text_eq_iff, arith, All, All-filter_by, Bool-cases, Option-cases, inl,
  inr, is_some, if◌then◌else◌,
}
use ai_customer_support_plat.Tags.Service.{
  Tag, Link, TagTables, normalized, is_named, find_tag, is_other_tag, delete_org_tag,
}
use ai_customer_support_plat.Tags.Links.{
  IsUnique, Differs, has_id, has_link-filter, filter_by-IsLinkedOnce,
}
use ai_customer_support_plat.Tags.Keys.{same_key}
use ai_customer_support_plat.Tags.Facts.{IsKnown, IsValid, is_tagged, is_tagged-none}

abbrev is_kept : ℕ → Tag → Bool
is_kept i u = not (u.id == i)

filter_by-IsUnique : (p : Tag → Bool) (ts : List Tag) → IsUnique ts → IsUnique (filter_by p ts)
filter_by-IsUnique p [] d = tt
filter_by-IsUnique p (t ∷ ts) d = elim (Bool-cases (p t)) [
  | inl x ↦ rw x (All-filter_by (Differs t) p ts d.0, filter_by-IsUnique p ts d.1)
  | inr x ↦ rw x (filter_by-IsUnique p ts d.1)
]

find_tag-clash :
    (org : ℕ) (n : Text) (t : Tag) (ts : List Tag)
    → All (Differs t) ts
    → is_named org n t ≡ true
    → find_tag org n ts ≡ none
unfolding find_tag
find_tag-clash org n t [] a h = refl
find_tag-clash org n t (u ∷ ts) a h =
    let eo : t.organization_id ≡ org = ground arith in
    let en : t.name ≡ n = (text_eq_iff t.name n).0 (ground arith) in
    let e : is_named org n u ≡ false = rw (sym eo, sym en) a.0.1 in
    ground (arith, find_tag-clash org n t ts)

find_tag-filter-none :
    (org i : ℕ) (n : Text) (ts : List Tag)
    → find_tag org n ts ≡ none
    → find_tag org n (filter_by (is_kept i) ts) ≡ none
unfolding find_tag
find_tag-filter-none org i n [] h = refl
find_tag-filter-none org i n (t ∷ ts) h = ground (arith, find_tag-filter-none org i n ts)

find_tag-filter-some :
    (org i : ℕ) (n : Text) (t : Tag) (ts : List Tag)
    → IsUnique ts
    → find_tag org n ts ≡ some t
    → find_tag org n (filter_by (is_kept i) ts) ≡ (if t.id == i then none else some t)
unfolding find_tag
find_tag-filter-some org i n t [] d h = absurd (ground arith)
find_tag-filter-some org i n t (u ∷ ts) d h = elim (Bool-cases (is_named org n u)) [
  | inl x ↦
      let e : u ≡ t = ground arith in
      let r : find_tag org n (filter_by (is_kept i) ts) ≡ none =
        find_tag-filter-none org i n ts (find_tag-clash org n u ts d.0 x) in
      subst
        (λ (w : Tag).
          find_tag org n (filter_by (is_kept i) (u ∷ ts)) ≡ (if w.id == i then none else some w))
        e (ground arith)
  | inr x ↦ ground (arith, find_tag-filter-some org i n t ts d.1)
]

has_id-filter :
    (i j : ℕ) (ts : List Tag) → has_id j (filter_by (is_kept i) ts) ≡ (has_id j ts && not (j == i))
unfolding has_id
has_id-filter i j [] = refl
has_id-filter i j (t ∷ ts) = ground (arith, has_id-filter i j ts)

IsKnown-filter :
    (i : ℕ) (tags : List Tag) (links : List Link)
    → IsKnown tags links
    → IsKnown (filter_by (is_kept i) tags) (filter_by (is_other_tag i) links)
IsKnown-filter i tags [] k = tt
IsKnown-filter i tags (l ∷ links) k = elim (Bool-cases (l.tag_id == i)) [
  | inl x ↦ rw x (IsKnown-filter i tags links k.1)
  | inr x ↦ rw x (ground (arith, has_id-filter i l.tag_id tags), IsKnown-filter i tags links k.1)
]

-- The tags of owners without those of one key.
abbrev pub IsCleared : ℕ → Text → (List Tag × List Link) → (List Tag × List Link) → Type 0
IsCleared org n (tags, links) (tags', links') =
    (org' o' : ℕ) (n' : Text)
    → is_tagged org' o' n' tags' links'
      ≡ (is_tagged org' o' n' tags links && not (org == org' && text_eq n n'))

is_tagged-delete :
    (org : ℕ) (n : Text) (t : Tag) (tags : List Tag) (links : List Link)
    → IsUnique tags
    → find_tag org n tags ≡ some t
    → IsCleared org n
        (tags, links)
        (filter_by (is_kept t.id) tags, filter_by (is_other_tag t.id) links)
unfolding is_tagged
is_tagged-delete org n t tags links d h org' o' n' = elim (Option-cases (find_tag org' n' tags)) [
  | inl x ↦ rw (x, find_tag-filter-none org' t.id n' tags x, is_tagged) refl
  | inr (t', x) ↦
      let k = same_key org org' n n' t t' tags d h x in
      let f = find_tag-filter-some org' t.id n' t' tags d x in
      elim (Bool-cases (t.id == t'.id)) [
        | inl y ↦
            let g : find_tag org' n' (filter_by (is_kept t.id) tags) ≡ none = ground arith in
            rw (x, g, is_tagged) (ground arith)
        | inr y ↦
            let g : find_tag org' n' (filter_by (is_kept t.id) tags) ≡ some t' = ground arith in
            rw (x, g, is_tagged) (ground (arith, has_link-filter t.id o' t'.id links))
      ]
]

-- In valid tables `delete_org_tag` answers whether the organisation has a tag of the stripped
-- lower-case name; afterwards no conversation and no ticket has it, all other tags of conversations
-- and tickets are as before, in every organisation, and the tables are valid.
pub delete_org_tag_lem :
    (org : ℕ) (name : Text) (s : TagTables)
    → IsValid s
    → ((delete_org_tag org name s).0 ≡ is_some (find_tag org (normalized name) s.tags))
      × IsCleared org
          (normalized name)
          (s.tags, s.conversation_tags)
          ((delete_org_tag org name s).1.tags, (delete_org_tag org name s).1.conversation_tags)
      × IsCleared org
          (normalized name)
          (s.tags, s.ticket_tags)
          ((delete_org_tag org name s).1.tags, (delete_org_tag org name s).1.ticket_tags)
      × (find_tag org (normalized name) (delete_org_tag org name s).1.tags ≡ none)
      × IsValid (delete_org_tag org name s).1
unfolding delete_org_tag
delete_org_tag_lem org name s v = elim (Option-cases (find_tag org (normalized name) s.tags)) [
  | inl x ↦
      rw (x, delete_org_tag) (refl, absent s.conversation_tags x, absent s.ticket_tags x, x, v)
  | inr (t, x) ↦
      rw (x, delete_org_tag)
        (
          refl,
          is_tagged-delete org (normalized name) t s.tags s.conversation_tags v.unique x,
          is_tagged-delete org (normalized name) t s.tags s.ticket_tags v.unique x,
          find_tag-filter-some org t.id (normalized name) t s.tags v.unique x ∙ ground arith,
          record {
            unique = filter_by-IsUnique (is_kept t.id) s.tags v.unique;
            conversations_once =
                filter_by-IsLinkedOnce t.id s.conversation_tags v.conversations_once;
            tickets_once = filter_by-IsLinkedOnce t.id s.ticket_tags v.tickets_once;
            conversations_known =
                IsKnown-filter t.id s.tags s.conversation_tags v.conversations_known;
            tickets_known = IsKnown-filter t.id s.tags s.ticket_tags v.tickets_known;
          },
        )
]
  where
    absent :
        (links : List Link)
        → find_tag org (normalized name) s.tags ≡ none
        → IsCleared org (normalized name) (s.tags, links) (s.tags, links)
    absent links h org' o' n' = elim (Bool-cases (org == org' && text_eq (normalized name) n')) [
      | inl y ↦
          let eo : org ≡ org' = ground arith in
          let en : normalized name ≡ n' = (text_eq_iff (normalized name) n').0 (ground arith) in
          let e : find_tag org' n' s.tags ≡ none = rw (sym eo, sym en) h in
          rw (is_tagged-none org' o' n' s.tags links e) refl
      | inr y ↦ ground arith
    ]
