-- ===== src/Tags/Sync.antt =====
-- Passing a conversation's tag on to its tickets.
use ai_customer_support_plat.Prelude.{
  ℕ, ◌≡◌, ◌∙◌, refl, Bool, false, ◌&&◌, ◌||◌, List, [], ◌∷◌, none, ◌==◌, Text, text_eq, arith,
  contains,
}
use ai_customer_support_plat.Domain.{Ticket}
use ai_customer_support_plat.Tags.Service.{
  TagTables, normalized, find_tag, add_ticket_tag, add_each, tickets_of,
  sync_tag_to_conversation_tickets,
}
use ai_customer_support_plat.Tags.Links.{has_id}
use ai_customer_support_plat.Tags.Facts.{IsValid, is_tagged}
use ai_customer_support_plat.Tags.Adding.{IsSameTagging, add_ticket_tag_lem}

abbrev is_hit : ℕ → List ℕ → Text → ℕ → ℕ → Text → Bool
is_hit org tickets n org' o' n' = contains o' tickets && (org == org' && text_eq n n')

add_each_lem :
    (new_id org : ℕ) (name : Text) (tickets : List ℕ) (s : TagTables)
    → IsValid s
    → (find_tag org (normalized name) s.tags ≡ none → has_id new_id s.tags ≡ false)
    → ((org' o' : ℕ) (n' : Text)
        → is_tagged org' o' n'
            (add_each new_id org name tickets s).tags
            (add_each new_id org name tickets s).ticket_tags
          ≡ (is_tagged org' o' n' s.tags s.ticket_tags
              || is_hit org tickets (normalized name) org' o' n'))
      × IsSameTagging
          (s.tags, s.conversation_tags)
          (
            (add_each new_id org name tickets s).tags,
            (add_each new_id org name tickets s).conversation_tags,
          )
      × IsValid (add_each new_id org name tickets s)
unfolding add_each
add_each_lem new_id org name [] s v f = (λ org' o' n'. ground arith, λ org' o' n'. refl, v)
add_each_lem new_id org name (t ∷ ts) s v f =
    let (added, kept, valid, found) = add_ticket_tag_lem new_id org t name s v f in
    let (added', kept', valid') =
      add_each_lem new_id org name ts (add_ticket_tag new_id org t name s).1 valid
        (λ h. absurd (found h)) in
    (
      λ org' o' n'. added' org' o' n' ∙ ground (arith, added org' o' n'),
      λ org' o' n'. kept' org' o' n' ∙ kept org' o' n',
      valid',
    )

-- In valid tables, with a new identifier where the tag does not exist yet,
-- `sync_tag_to_conversation_tickets` gives every ticket of the conversation the tag; no other tag of
-- a ticket and no tag of a conversation changes, and the tables are valid.
pub sync_tag_to_conversation_tickets_lem :
    (new_id org cid : ℕ) (name : Text) (tickets : List Ticket) (s : TagTables)
    → IsValid s
    → (find_tag org (normalized name) s.tags ≡ none → has_id new_id s.tags ≡ false)
    → ((org' o' : ℕ) (n' : Text)
        → is_tagged org' o' n'
            (sync_tag_to_conversation_tickets new_id org cid name tickets s).tags
            (sync_tag_to_conversation_tickets new_id org cid name tickets s).ticket_tags
          ≡ (is_tagged org' o' n' s.tags s.ticket_tags
              || (contains o' (tickets_of cid tickets)
                  && (org == org' && text_eq (normalized name) n'))))
      × IsSameTagging
          (s.tags, s.conversation_tags)
          (
            (sync_tag_to_conversation_tickets new_id org cid name tickets s).tags,
            (sync_tag_to_conversation_tickets new_id org cid name tickets s).conversation_tags,
          )
      × IsValid (sync_tag_to_conversation_tickets new_id org cid name tickets s)
unfolding sync_tag_to_conversation_tickets
sync_tag_to_conversation_tickets_lem new_id org cid name tickets s v f =
    add_each_lem new_id org name (tickets_of cid tickets) s v f
