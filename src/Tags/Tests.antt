-- ===== src/Tags/Tests.antt =====
-- Organisation 1 has the tags "vip" (id 3) and "new" (id 4), organisation 2 its own "vip" (id 5).
use ai_customer_support_plat.Prelude.{
  insert, sort_by, ℕ, ◌≡◌, refl, true, false, not, ◌&&◌, ◌||◌, List, [], ◌∷◌, none, arith, codes,
  Text, text_eq, is_space, lstrip, strip, lower_code, lower, contains, any, is_some, ◌==◌,
}
use ai_customer_support_plat.Domain.{Ticket, normal}
use ai_customer_support_plat.Tags.Service.{
  TagTables, normalized, find_tag, get_or_create_tag, has_link, add_link, drop_link,
  add_conversation_tag, add_ticket_tag, remove_conversation_tag, delete_org_tag, tickets_of,
  add_each, sync_tag_to_conversation_tickets,
}
use ai_customer_support_plat.Tags.Links.{has_id}
use ai_customer_support_plat.Tags.Facts.{IsValid, is_tagged}
use ai_customer_support_plat.Tags.Adding.{
  IsAdded, IsRemoved, IsSameTagging, add_conversation_tag_lem,
}
use ai_customer_support_plat.Tags.Removal.{remove_conversation_tag_lem, add-remove_conversation_tag}
use ai_customer_support_plat.Tags.Deletion.{IsCleared, delete_org_tag_lem}
use ai_customer_support_plat.Tags.Sync.{sync_tag_to_conversation_tickets_lem}
use ai_customer_support_plat.Tags.Listing.{
  get_list, append_to, group, join_tags, join_links, precedes, has_name, update, update_each,
  ticket_rows, effective_of, set_each, list_tags, list_conversation_tags, map_tags, map_ticket_tags,
  map_conversation_tags, map_effective_conversation_tags,
}
use ai_customer_support_plat.Tags.Listing.Names.{carries}
use ai_customer_support_plat.Tags.Listing.Single.{map_conversation_tags-list}
use ai_customer_support_plat.Tags.Listing.Effective.{map_effective_conversation_tags_lem}

service : Unit {0}
unfolding text_eq is_space lstrip strip lower_code lower normalized find_tag get_or_create_tag
    has_link add_link drop_link add_conversation_tag add_ticket_tag remove_conversation_tag
    delete_org_tag tickets_of add_each sync_tag_to_conversation_tickets has_id is_tagged insert
    sort_by get_list append_to group join_tags join_links precedes has_name update update_each
    ticket_rows effective_of set_each list_tags list_conversation_tags map_tags map_ticket_tags
    map_conversation_tags map_effective_conversation_tags
service = tt

abbrev vip : Text
vip = codes "vip"

abbrev fresh_name : Text
fresh_name = codes "new"

abbrev tables : TagTables
tables = record {
  tags =
      record { id = 3; organization_id = 1; name = vip }
      ∷ record { id = 4; organization_id = 1; name = fresh_name }
      ∷ record { id = 5; organization_id = 2; name = vip }
      ∷ [];
  conversation_tags =
      record { owner_id = 10; tag_id = 3 } ∷ record { owner_id = 11; tag_id = 5 } ∷ [];
  ticket_tags = record { owner_id = 20; tag_id = 4 } ∷ [];
}

tables-IsValid : IsValid tables
unfolding service
tables-IsValid = record {
  unique = ground arith;
  conversations_once = ground arith;
  tickets_once = ground arith;
  conversations_known = (refl, (refl, tt));
  tickets_known = (refl, tt);
}

abbrev ticket : ℕ → ℕ → Ticket
ticket i c = record {
  id = i;
  organization_id = 1;
  conversation_id = c;
  priority = normal;
  assigned_user_id = none;
  assigned_team_id = none;
}

abbrev tickets : List Ticket
tickets = ticket 20 10 ∷ ticket 21 10 ∷ ticket 22 11 ∷ []

operation_tests :
    ((add_conversation_tag 6 1 10 (codes " NEW ") tables).0 ≡ true)
    × ((add_conversation_tag 6 1 10 (codes "vip") tables).0 ≡ false)
    × ((add_conversation_tag 6 2 10 (codes "new") tables).1.conversation_tags
        ≡ record { owner_id = 10; tag_id = 3 }
          ∷ record { owner_id = 11; tag_id = 5 }
          ∷ record { owner_id = 10; tag_id = 6 }
          ∷ [])
    × ((delete_org_tag 1 vip tables).1.conversation_tags
        ≡ record { owner_id = 11; tag_id = 5 } ∷ [])
    × ((sync_tag_to_conversation_tickets 6 1 10 vip tickets tables).ticket_tags
        ≡ record { owner_id = 20; tag_id = 4 }
          ∷ record { owner_id = 20; tag_id = 3 }
          ∷ record { owner_id = 21; tag_id = 3 }
          ∷ [])
    × (map_effective_conversation_tags precedes (10 ∷ 11 ∷ []) tickets tables
        ≡ (10, fresh_name ∷ vip ∷ []) ∷ (11, vip ∷ []) ∷ [])
unfolding service
operation_tests = (refl, refl, refl, refl, refl, refl)

add_conversation_tag_lem_example :
    ((add_conversation_tag 6 2 10 fresh_name tables).0
      ≡ not (is_tagged 2 10 (normalized fresh_name) tables.tags tables.conversation_tags))
    × IsAdded 2 10
        (normalized fresh_name)
        (tables.tags, tables.conversation_tags)
        (
          (add_conversation_tag 6 2 10 fresh_name tables).1.tags,
          (add_conversation_tag 6 2 10 fresh_name tables).1.conversation_tags,
        )
    × IsSameTagging
        (tables.tags, tables.ticket_tags)
        (
          (add_conversation_tag 6 2 10 fresh_name tables).1.tags,
          (add_conversation_tag 6 2 10 fresh_name tables).1.ticket_tags,
        )
    × IsValid (add_conversation_tag 6 2 10 fresh_name tables).1
unfolding service
add_conversation_tag_lem_example =
    add_conversation_tag_lem 6 2 10 fresh_name tables tables-IsValid (λ h. refl)

remove_conversation_tag_lem_example :
    ((remove_conversation_tag 1 10 vip tables).0
      ≡ is_tagged 1 10 (normalized vip) tables.tags tables.conversation_tags)
    × IsRemoved 1 10
        (normalized vip)
        (tables.tags, tables.conversation_tags)
        (tables.tags, (remove_conversation_tag 1 10 vip tables).1.conversation_tags)
    × ((remove_conversation_tag 1 10 vip tables).1.tags ≡ tables.tags)
    × ((remove_conversation_tag 1 10 vip tables).1.ticket_tags ≡ tables.ticket_tags)
    × IsValid (remove_conversation_tag 1 10 vip tables).1
remove_conversation_tag_lem_example = remove_conversation_tag_lem 1 10 vip tables tables-IsValid

abbrev added : TagTables
added = (add_conversation_tag 6 2 10 fresh_name tables).1

add-remove_conversation_tag_example :
    ((add_conversation_tag 6 2 10 fresh_name tables).0 ≡ true)
    × ((remove_conversation_tag 2 10 fresh_name added).0 ≡ true)
    × ((remove_conversation_tag 2 10 fresh_name added).1.conversation_tags
        ≡ tables.conversation_tags)
    × ((remove_conversation_tag 2 10 fresh_name added).1.ticket_tags ≡ tables.ticket_tags)
unfolding service
add-remove_conversation_tag_example =
    add-remove_conversation_tag 6 2 10 fresh_name tables tables-IsValid (λ h. refl) refl

delete_org_tag_lem_example :
    ((delete_org_tag 1 vip tables).0 ≡ is_some (find_tag 1 (normalized vip) tables.tags))
    × IsCleared 1
        (normalized vip)
        (tables.tags, tables.conversation_tags)
        ((delete_org_tag 1 vip tables).1.tags, (delete_org_tag 1 vip tables).1.conversation_tags)
    × IsCleared 1
        (normalized vip)
        (tables.tags, tables.ticket_tags)
        ((delete_org_tag 1 vip tables).1.tags, (delete_org_tag 1 vip tables).1.ticket_tags)
    × (find_tag 1 (normalized vip) (delete_org_tag 1 vip tables).1.tags ≡ none)
    × IsValid (delete_org_tag 1 vip tables).1
delete_org_tag_lem_example = delete_org_tag_lem 1 vip tables tables-IsValid

sync_tag_to_conversation_tickets_lem_example :
    ((org' o' : ℕ) (n' : Text)
      → is_tagged org' o' n'
          (sync_tag_to_conversation_tickets 6 1 10 vip tickets tables).tags
          (sync_tag_to_conversation_tickets 6 1 10 vip tickets tables).ticket_tags
        ≡ (is_tagged org' o' n' tables.tags tables.ticket_tags
            || (contains o' (tickets_of 10 tickets) && (1 == org' && text_eq (normalized vip) n'))))
    × IsSameTagging
        (tables.tags, tables.conversation_tags)
        (
          (sync_tag_to_conversation_tickets 6 1 10 vip tickets tables).tags,
          (sync_tag_to_conversation_tickets 6 1 10 vip tickets tables).conversation_tags,
        )
    × IsValid (sync_tag_to_conversation_tickets 6 1 10 vip tickets tables)
unfolding service
sync_tag_to_conversation_tickets_lem_example =
    sync_tag_to_conversation_tickets_lem 6 1 10 vip tickets tables tables-IsValid (λ h. refl)

map_conversation_tags-list_example :
    (has_name vip (list_conversation_tags precedes 10 tables)
      ≡ carries 10 vip tables.conversation_tags tables.tags)
    × (has_name vip (get_list 10 (map_conversation_tags precedes (10 ∷ 11 ∷ []) tables))
        ≡ (contains 10 (10 ∷ 11 ∷ []) && has_name vip (list_conversation_tags precedes 10 tables)))
map_conversation_tags-list_example =
    map_conversation_tags-list precedes (10 ∷ 11 ∷ []) tables 10 vip

map_effective_conversation_tags_lem_example :
    has_name fresh_name
      (get_list 10 (map_effective_conversation_tags precedes (10 ∷ 11 ∷ []) tickets tables))
    ≡ (carries 10 fresh_name tables.conversation_tags tables.tags
        || any
            (λ (t : Ticket).
              t.conversation_id == 10 && carries t.id fresh_name tables.ticket_tags tables.tags)
            tickets)
map_effective_conversation_tags_lem_example =
    map_effective_conversation_tags_lem precedes (10 ∷ 11 ∷ []) tickets tables 10 fresh_name refl
