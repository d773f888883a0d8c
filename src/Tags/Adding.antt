-- ===== src/Tags/Adding.antt =====
-- What adding a tag does to the tags of every owner.
use ai_customer_support_plat.Prelude.{
  ℕ, ◌≡◌, ◌≢◌, ◌∙◌, refl, sym, ap, subst, false, not, ◌&&◌, ◌||◌, List, none, some, Text, arith,
}
use ai_customer_support_plat.Tags.Service.{
  Tag, Link, TagTables, normalized, find_tag, get_or_create_tag, has_link, add_link,
  add_conversation_tag, add_ticket_tag,
}
use ai_customer_support_plat.Tags.Links.{IsLinkedOnce, has_id, add_link-IsLinkedOnce}
use ai_customer_support_plat.Tags.Keys.{find_tag-has_id}
use ai_customer_support_plat.Tags.Facts.{IsKnown, IsValid, is_tagged, is_tagged-add, is_key}
use ai_customer_support_plat.Tags.Obtain.{
  IsObtained, get_or_create_tag-IsObtained, add_link-IsKnown,
}

-- The owner's tags after `name` was added, or removed.
abbrev pub IsAdded : ℕ → ℕ → Text → (List Tag × List Link) → (List Tag × List Link) → Type 0
IsAdded org o n (tags, links) (tags', links') =
    (org' o' : ℕ) (n' : Text)
    → is_tagged org' o' n' tags' links'
      ≡ (is_tagged org' o' n' tags links || is_key org o n org' o' n')

abbrev pub IsRemoved : ℕ → ℕ → Text → (List Tag × List Link) → (List Tag × List Link) → Type 0
IsRemoved org o n (tags, links) (tags', links') =
    (org' o' : ℕ) (n' : Text)
    → is_tagged org' o' n' tags' links'
      ≡ (is_tagged org' o' n' tags links && not (is_key org o n org' o' n'))

abbrev pub IsSameTagging : (List Tag × List Link) → (List Tag × List Link) → Type 0
IsSameTagging (tags, links) (tags', links') =
    (org' o' : ℕ) (n' : Text) → is_tagged org' o' n' tags' links' ≡ is_tagged org' o' n' tags links

pub add_link-found :
    (o i : ℕ) (links : List Link) → (add_link o i links).0 ≡ not (has_link o i links)
unfolding add_link
add_link-found o i links = ground arith

pub is_tagged-found :
    (org o : ℕ) (n : Text) (t : Tag) (tags : List Tag) (links : List Link)
    → find_tag org n tags ≡ some t
    → is_tagged org o n tags links ≡ has_link o t.id links
unfolding is_tagged
is_tagged-found org o n t tags links h = rw (h, is_tagged) refl

-- One table of links, before and after a tag was obtained.
module _ (org owner : ℕ) (n : Text) (s : TagTables) (t : Tag) (s1 : TagTables)
    (g : IsObtained org n s t s1) (links links1 : List Link) (e : links1 ≡ links)
    (known : IsKnown s.tags links) where
  abbrev now : List Link
  now = (add_link owner t.id links1).1

  pub obtained-kept : IsSameTagging (s.tags, links) (s1.tags, links1)
  obtained-kept org' o' n' = ap (is_tagged org' o' n' s1.tags) e ∙ g.tagged links known org' o' n'

  pub obtained-answer : (add_link owner t.id links1).0 ≡ not (is_tagged org owner n s.tags links)
  obtained-answer =
      add_link-found owner t.id links1
      ∙ ap not
          (sym (is_tagged-found org owner n t s1.tags links1 g.found) ∙ obtained-kept org owner n)

  obtained-IsAdded : IsAdded org owner n (s.tags, links) (s1.tags, now)
  obtained-IsAdded org' o' n' =
      is_tagged-add org owner n t s1.tags links1 g.unique g.found org' o' n'
      ∙ ap (λ b. b || is_key org owner n org' o' n') (obtained-kept org' o' n')

  obtained-IsKnown : IsKnown s1.tags links1
  obtained-IsKnown = subst (IsKnown s1.tags) (sym e) (g.known links known)

  added-IsKnown : IsKnown s1.tags now
  added-IsKnown =
      add_link-IsKnown owner t.id s1.tags links1 (find_tag-has_id org n t s1.tags g.found)
        obtained-IsKnown

module _ (new_id org owner : ℕ) (name : Text) (s : TagTables) (v : IsValid s)
    (fresh : find_tag org (normalized name) s.tags ≡ none → has_id new_id s.tags ≡ false) where
  -- In valid tables, with a new identifier where the tag does not exist yet, `add_conversation_tag`
  -- answers whether the conversation lacked the tag; afterwards the conversation has the tag under
  -- its stripped lower-case name, no other conversation's or ticket's tags have changed, and the
  -- tables are valid: no tag or link twice, and no link without its tag.
  pub add_conversation_tag_lem :
      ((add_conversation_tag new_id org owner name s).0
        ≡ not (is_tagged org owner (normalized name) s.tags s.conversation_tags))
      × IsAdded org owner
          (normalized name)
          (s.tags, s.conversation_tags)
          (
            (add_conversation_tag new_id org owner name s).1.tags,
            (add_conversation_tag new_id org owner name s).1.conversation_tags,
          )
      × IsSameTagging
          (s.tags, s.ticket_tags)
          (
            (add_conversation_tag new_id org owner name s).1.tags,
            (add_conversation_tag new_id org owner name s).1.ticket_tags,
          )
      × IsValid (add_conversation_tag new_id org owner name s).1
  unfolding add_conversation_tag
  add_conversation_tag_lem =
      let n = normalized name in
      let t = (get_or_create_tag new_id org name s).0 in
      let s1 = (get_or_create_tag new_id org name s).1 in
      let g = get_or_create_tag-IsObtained new_id org name s v.unique fresh in
      let c = s.conversation_tags in
      let k = s.ticket_tags in
      (
        obtained-answer org owner n s t s1 g c s1.conversation_tags g.conversations
            v.conversations_known,
        obtained-IsAdded org owner n s t s1 g c s1.conversation_tags g.conversations
            v.conversations_known,
        obtained-kept org owner n s t s1 g k s1.ticket_tags g.tickets v.tickets_known,
        record {
          unique = g.unique;
          conversations_once =
              add_link-IsLinkedOnce owner t.id s1.conversation_tags
                (subst IsLinkedOnce (sym g.conversations) v.conversations_once);
          tickets_once = subst IsLinkedOnce (sym g.tickets) v.tickets_once;
          conversations_known =
              added-IsKnown org owner n s t s1 g c s1.conversation_tags g.conversations
                v.conversations_known;
          tickets_known =
              obtained-IsKnown org owner n s t s1 g k s1.ticket_tags g.tickets v.tickets_known;
        },
      )

  pub add_ticket_tag_lem :
      IsAdded org owner
        (normalized name)
        (s.tags, s.ticket_tags)
        (
          (add_ticket_tag new_id org owner name s).1.tags,
          (add_ticket_tag new_id org owner name s).1.ticket_tags,
        )
      × IsSameTagging
          (s.tags, s.conversation_tags)
          (
            (add_ticket_tag new_id org owner name s).1.tags,
            (add_ticket_tag new_id org owner name s).1.conversation_tags,
          )
      × IsValid (add_ticket_tag new_id org owner name s).1
      × (find_tag org (normalized name) (add_ticket_tag new_id org owner name s).1.tags ≢ none)
  unfolding add_ticket_tag
  add_ticket_tag_lem =
      let n = normalized name in
      let t = (get_or_create_tag new_id org name s).0 in
      let s1 = (get_or_create_tag new_id org name s).1 in
      let g = get_or_create_tag-IsObtained new_id org name s v.unique fresh in
      let c = s.conversation_tags in
      let k = s.ticket_tags in
      (
        obtained-IsAdded org owner n s t s1 g k s1.ticket_tags g.tickets v.tickets_known,
        obtained-kept org owner n s t s1 g c s1.conversation_tags g.conversations
            v.conversations_known,
        record {
          unique = g.unique;
          conversations_once = subst IsLinkedOnce (sym g.conversations) v.conversations_once;
          tickets_once =
              add_link-IsLinkedOnce owner t.id s1.ticket_tags
                (subst IsLinkedOnce (sym g.tickets) v.tickets_once);
          conversations_known =
              obtained-IsKnown org owner n s t s1 g c s1.conversation_tags g.conversations
                v.conversations_known;
          tickets_known =
              added-IsKnown org owner n s t s1 g k s1.ticket_tags g.tickets v.tickets_known;
        },
        λ h. ground (arith, g.found),
      )
