-- ===== src/Tags/Obtain.antt =====
-- `get_or_create_tag`: the tag that it returns is found afterwards and nothing else changes.
use ai_customer_support_plat.Prelude.{
  ℕ, ◌≡◌, refl, true, false, List, [], ◌∷◌, ◌++◌, none, some, Text, arith, All-snoc, Bool-cases,
  Option-cases, inl, inr,
}
use ai_customer_support_plat.Tags.Service.{
  Tag, Link, TagTables, normalized, find_tag, get_or_create_tag, has_link, add_link,
}
use ai_customer_support_plat.Tags.Links.{IsUnique, has_id}
use ai_customer_support_plat.Tags.Keys.{IsUnique-snoc}
use ai_customer_support_plat.Tags.Facts.{IsKnown, is_tagged, is_tagged-create, find_tag-create}

pub record IsObtained (org : ℕ) (n : Text) (s : TagTables) (t : Tag) (s1 : TagTables) : Type 0 where
  pub unique : IsUnique s1.tags
  pub found : find_tag org n s1.tags ≡ some t
  pub conversations : s1.conversation_tags ≡ s.conversation_tags
  pub tickets : s1.ticket_tags ≡ s.ticket_tags
  pub known : (links : List Link) → IsKnown s.tags links → IsKnown s1.tags links
  pub tagged :
      (links : List Link)
      → IsKnown s.tags links
      → (org' o' : ℕ) (n' : Text)
      → is_tagged org' o' n' s1.tags links ≡ is_tagged org' o' n' s.tags links

has_id-snoc :
    (i : ℕ) (u : Tag) (ts : List Tag) → has_id i ts ≡ true → has_id i (ts ++ u ∷ []) ≡ true
unfolding has_id
has_id-snoc i u [] h = absurd (ground arith)
has_id-snoc i u (t ∷ ts) h = ground (arith, has_id-snoc i u ts)

IsKnown-snoc :
    (u : Tag) (ts : List Tag) (links : List Link) → IsKnown ts links → IsKnown (ts ++ u ∷ []) links
IsKnown-snoc u ts [] k = tt
IsKnown-snoc u ts (l ∷ links) k = (has_id-snoc l.tag_id u ts k.0, IsKnown-snoc u ts links k.1)

pub get_or_create_tag-IsObtained :
    (new_id org : ℕ) (name : Text) (s : TagTables)
    → IsUnique s.tags
    → (find_tag org (normalized name) s.tags ≡ none → has_id new_id s.tags ≡ false)
    → IsObtained org
        (normalized name)
        s
        (get_or_create_tag new_id org name s).0
        (get_or_create_tag new_id org name s).1
unfolding get_or_create_tag
get_or_create_tag-IsObtained new_id org name s d f =
    elim (Option-cases (find_tag org (normalized name) s.tags)) [
      | inl x ↦
          rw (x, get_or_create_tag)
            (record {
              unique = IsUnique-snoc org new_id (normalized name) s.tags d x (f x);
              found = find_tag-create org new_id (normalized name) s.tags x;
              conversations = refl;
              tickets = refl;
              known = IsKnown-snoc _ s.tags;
              tagged =
                  λ links k. is_tagged-create org new_id (normalized name) s.tags links k (f x);
            })
      | inr (t, x) ↦
          rw (x, get_or_create_tag)
            (record {
              unique = d;
              found = x;
              conversations = refl;
              tickets = refl;
              known = λ links k. k;
              tagged = λ links k org' o' n'. refl;
            })
    ]

pub add_link-IsKnown :
    (o i : ℕ) (tags : List Tag) (links : List Link)
    → has_id i tags ≡ true
    → IsKnown tags links
    → IsKnown tags (add_link o i links).1
unfolding add_link
add_link-IsKnown o i tags links h k = elim (Bool-cases (has_link o i links)) [
  | inl x ↦ rw (x, add_link) k
  | inr x ↦ rw (x, add_link) (All-snoc _ links _ k h)
]
