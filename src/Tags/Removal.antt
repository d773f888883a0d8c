-- ===== src/Tags/Removal.antt =====
-- What removing a tag does to the tags of every owner, and that it undoes an addition.
use ai_customer_support_plat.Prelude.{
  ℕ, ◌≡◌, ◌∙◌, refl, sym, ap, true, false, not, ◌&&◌, List, [], ◌∷◌, ◌++◌, none, some, ◌==◌, Text,
  text_eq_iff, arith, All, Bool-cases, Option-cases, inl, inr,
}
use ai_customer_support_plat.Tags.Service.{
  Tag, Link, TagTables, normalized, find_tag, get_or_create_tag, has_link, add_link, is_link,
  drop_link, add_conversation_tag, remove_conversation_tag, remove_link,
}
use ai_customer_support_plat.Tags.Links.{
  IsLinkedOnce, IsUnique, has_id, has_link-drop, has_link-add, has_link-snoc,
  drop_link-IsLinkedOnce,
}
use ai_customer_support_plat.Tags.Keys.{same_key}
use ai_customer_support_plat.Tags.Facts.{IsValid, is_tagged, is_tagged-none, is_key}
use ai_customer_support_plat.Tags.Obtain.{get_or_create_tag-IsObtained}
use ai_customer_support_plat.Tags.Adding.{IsRemoved, is_tagged-found, obtained-kept, add_link-found}

has_link-remove :
    (o g o' g' : ℕ) (ls : List Link)
    → IsLinkedOnce ls
    → has_link o' g' (remove_link o g ls).1 ≡ (has_link o' g' ls && not (o == o' && g == g'))
has_link-remove o g o' g' ls d = elim (Bool-cases (has_link o g ls)) [
  | inl x ↦ rw x (has_link-drop o g o' g' ls d)
  | inr x ↦ elim (Bool-cases (o == o' && g == g')) [
    | inl y ↦
        let eo : o ≡ o' = ground arith in
        let eg : g ≡ g' = ground arith in
        let e : has_link o' g' ls ≡ false = rw (sym eo, sym eg) x in ground arith
    | inr y ↦ ground arith
  ]
]

drop_link-All : (P : Link → Type 0) (o g : ℕ) (ls : List Link) → All P ls → All P (drop_link o g ls)
unfolding drop_link
drop_link-All P o g [] a = tt
drop_link-All P o g (l ∷ ls) a = elim (Bool-cases (is_link o g l)) [
  | inl x ↦ rw (x, drop_link) a.1
  | inr x ↦ rw (x, drop_link) (a.0, drop_link-All P o g ls a.1)
]

remove_link-IsLinkedOnce :
    (o g : ℕ) (ls : List Link) → IsLinkedOnce ls → IsLinkedOnce (remove_link o g ls).1
remove_link-IsLinkedOnce o g ls d = elim (Bool-cases (has_link o g ls)) [
  | inl x ↦ rw x (drop_link-IsLinkedOnce o g ls d)
  | inr x ↦ rw x d
]

remove_link-All :
    (P : Link → Type 0) (o g : ℕ) (ls : List Link) → All P ls → All P (remove_link o g ls).1
remove_link-All P o g ls a = elim (Bool-cases (has_link o g ls)) [
  | inl x ↦ rw x (drop_link-All P o g ls a)
  | inr x ↦ rw x a
]

remove_link-answer : (o g : ℕ) (ls : List Link) → (remove_link o g ls).0 ≡ has_link o g ls
remove_link-answer o g ls = ground arith

is_tagged-remove :
    (org o : ℕ) (n : Text) (t : Tag) (tags : List Tag) (links : List Link)
    → IsUnique tags
    → IsLinkedOnce links
    → find_tag org n tags ≡ some t
    → IsRemoved org o n (tags, links) (tags, (remove_link o t.id links).1)
unfolding is_tagged
is_tagged-remove org o n t tags links d once h org' o' n' =
    elim (Option-cases (find_tag org' n' tags)) [
      | inl x ↦ rw (x, is_tagged) refl
      | inr (t', x) ↦
          rw (x, is_tagged)
            (has_link-remove o t.id o' t'.id links once
              ∙ ap (λ b. has_link o' t'.id links && not (o == o' && b))
                  (same_key org org' n n' t t' tags d h x))
    ]

is_tagged-absent :
    (org o : ℕ) (n : Text) (tags : List Tag) (links : List Link)
    → find_tag org n tags ≡ none
    → IsRemoved org o n (tags, links) (tags, links)
unfolding is_tagged
is_tagged-absent org o n tags links h org' o' n' = elim (Bool-cases (is_key org o n org' o' n')) [
  | inl y ↦
      let eo : org ≡ org' = ground arith in
      let en : n ≡ n' = (text_eq_iff n n').0 (ground arith) in
      let e : find_tag org' n' tags ≡ none = rw (sym eo, sym en) h in rw (e, is_tagged) refl
  | inr y ↦ ground arith
]

-- In valid tables `remove_conversation_tag` answers whether the conversation had the tag; afterwards
-- the conversation is without it, every other tag of every conversation is as before, the tickets'
-- links and the tags are untouched, and the tables are valid.
pub remove_conversation_tag_lem :
    (org owner : ℕ) (name : Text) (s : TagTables)
    → IsValid s
    → ((remove_conversation_tag org owner name s).0
        ≡ is_tagged org owner (normalized name) s.tags s.conversation_tags)
      × IsRemoved org owner
          (normalized name)
          (s.tags, s.conversation_tags)
          (s.tags, (remove_conversation_tag org owner name s).1.conversation_tags)
      × ((remove_conversation_tag org owner name s).1.tags ≡ s.tags)
      × ((remove_conversation_tag org owner name s).1.ticket_tags ≡ s.ticket_tags)
      × IsValid (remove_conversation_tag org owner name s).1
unfolding remove_conversation_tag
remove_conversation_tag_lem org owner name s v =
    elim (Option-cases (find_tag org (normalized name) s.tags)) [
      | inl x ↦
          rw (x, remove_conversation_tag)
            (
              sym (is_tagged-none org owner (normalized name) s.tags s.conversation_tags x),
              is_tagged-absent org owner (normalized name) s.tags s.conversation_tags x,
              refl,
              refl,
              v,
            )
      | inr (t, x) ↦
          rw (x, remove_conversation_tag)
            (
              remove_link-answer owner t.id s.conversation_tags
                  ∙ sym
                      (is_tagged-found org owner (normalized name) t s.tags s.conversation_tags x),
              is_tagged-remove org owner (normalized name) t s.tags s.conversation_tags v.unique
                  v.conversations_once x,
              refl,
              refl,
              record {
                unique = v.unique;
                tickets_once = v.tickets_once;
                tickets_known = v.tickets_known;
                conversations_once =
                    remove_link-IsLinkedOnce owner t.id s.conversation_tags v.conversations_once;
                conversations_known =
                    remove_link-All _ owner t.id s.conversation_tags v.conversations_known;
              },
            )
    ]

drop_link-snoc :
    (o g : ℕ) (ls : List Link)
    → has_link o g ls ≡ false
    → drop_link o g (ls ++ record { owner_id = o; tag_id = g } ∷ []) ≡ ls
unfolding drop_link has_link
drop_link-snoc o g [] h = ground arith
drop_link-snoc o g (l ∷ ls) h = ground (arith, drop_link-snoc o g ls)

drop_link-add :
    (o g : ℕ) (ls : List Link)
    → has_link o g ls ≡ false
    → (remove_link o g (add_link o g ls).1).1 ≡ ls
unfolding add_link has_link
drop_link-add o g ls h =
    rw (h, add_link) (ground (arith, has_link-snoc o g o g ls, drop_link-snoc o g ls h))

-- A tag that a conversation lacks and that is added and then removed: both calls answer `True`, and
-- the links of conversations and of tickets are row by row what they were.
pub add-remove_conversation_tag :
    (new_id org owner : ℕ) (name : Text) (s : TagTables)
    → IsValid s
    → (find_tag org (normalized name) s.tags ≡ none → has_id new_id s.tags ≡ false)
    → is_tagged org owner (normalized name) s.tags s.conversation_tags ≡ false
    → ((add_conversation_tag new_id org owner name s).0 ≡ true)
      × ((remove_conversation_tag org owner name (add_conversation_tag new_id org owner name s).1).0
          ≡ true)
      × ((remove_conversation_tag org owner name
            (add_conversation_tag new_id org owner name s).1).1.conversation_tags
          ≡ s.conversation_tags)
      × ((remove_conversation_tag org owner name
            (add_conversation_tag new_id org owner name s).1).1.ticket_tags
          ≡ s.ticket_tags)
unfolding add_conversation_tag remove_conversation_tag
add-remove_conversation_tag new_id org owner name s v fresh absent =
    let n = normalized name in
    let t = (get_or_create_tag new_id org name s).0 in
    let s1 = (get_or_create_tag new_id org name s).1 in
    let g = get_or_create_tag-IsObtained new_id org name s v.unique fresh in
    let kept =
      obtained-kept org owner n s t s1 g s.conversation_tags s1.conversation_tags g.conversations
        v.conversations_known org owner n in
    let free : has_link owner t.id s1.conversation_tags ≡ false =
      sym (is_tagged-found org owner n t s1.tags s1.conversation_tags g.found) ∙ (kept ∙ absent) in
    let found : find_tag org n s1.tags ≡ some t = g.found in
    rw (found, remove_conversation_tag)
      (
        add_link-found owner t.id s1.conversation_tags ∙ ap not free,
        remove_link-answer owner t.id _
            ∙ (has_link-add owner t.id owner t.id s1.conversation_tags ∙ ground arith),
        drop_link-add owner t.id s1.conversation_tags free ∙ g.conversations,
        g.tickets,
      )
