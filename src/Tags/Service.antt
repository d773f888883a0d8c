-- ===== src/Tags/Service.antt =====
-- backend/app/modules/tags/application/service.py and the rows of tags/domain/models.py. Methods
-- return their result with the new tables; the identifier that a new tag row gets is an argument.
-- The order of names in the database (its collation) is a parameter.
use ai_customer_support_plat.Prelude.{
  ℕ, Bool, true, false, not, ◌&&◌, ◌||◌, List, [], ◌∷◌, ◌++◌, Option, none, some, ◌==◌,
  if◌then◌else◌, filter_by, Text, text_eq, strip, lower,
}
use ai_customer_support_plat.Domain.{Ticket}

pub record Tag : Type 0 where
  pub id : ℕ
  pub organization_id : ℕ
  pub name : Text

-- A row of `conversation_tags` or of `ticket_tags`: `owner_id` is its `conversation_id` or its
-- `ticket_id`.
pub record Link : Type 0 where
  pub owner_id : ℕ
  pub tag_id : ℕ

pub record TagTables : Type 0 where
  pub tags : List Tag
  pub conversation_tags : List Link
  pub ticket_tags : List Link

unfoldable pub normalized : Text → Text
normalized name = lower (strip name)

abbrev pub is_named : ℕ → Text → Tag → Bool
is_named org n t = t.organization_id == org && text_eq t.name n

-- `select(Tag).where(Tag.organization_id == org, Tag.name == n)`
unfoldable pub find_tag : ℕ → Text → List Tag → Option Tag
find_tag org n [] = none
find_tag org n (t ∷ ts) = if is_named org n t then some t else find_tag org n ts

unfoldable pub get_or_create_tag : ℕ → ℕ → Text → TagTables → Tag × TagTables
get_or_create_tag new_id org name s = elim (find_tag org (normalized name) s.tags) [
  | none ↦
      let t : Tag = record { id = new_id; organization_id = org; name = normalized name } in
      (t, record s { tags = s.tags ++ t ∷ [] })
  | some t ↦ (t, s)
]

abbrev pub is_link : ℕ → ℕ → Link → Bool
is_link owner tag l = l.owner_id == owner && l.tag_id == tag

unfoldable pub has_link : ℕ → ℕ → List Link → Bool
has_link owner tag [] = false
has_link owner tag (l ∷ ls) = is_link owner tag l || has_link owner tag ls

-- The row is added unless it exists.
unfoldable pub add_link : ℕ → ℕ → List Link → Bool × List Link
unfolding has_link
add_link owner tag ls =
    if has_link owner tag ls
    then (false, ls)
    else (true, ls ++ record { owner_id = owner; tag_id = tag } ∷ [])

-- The first row that matches is deleted.
unfoldable pub drop_link : ℕ → ℕ → List Link → List Link
drop_link owner tag [] = []
drop_link owner tag (l ∷ ls) = if is_link owner tag l then ls else l ∷ drop_link owner tag ls

abbrev pub remove_link : ℕ → ℕ → List Link → Bool × List Link
remove_link owner tag ls =
    if has_link owner tag ls then (true, drop_link owner tag ls) else (false, ls)

unfoldable pub add_conversation_tag : ℕ → ℕ → ℕ → Text → TagTables → Bool × TagTables
unfolding get_or_create_tag add_link
add_conversation_tag new_id org conversation_id name s =
    let (t, s1) = get_or_create_tag new_id org name s in
    let (added, rows) = add_link conversation_id t.id s1.conversation_tags in
    (added, record s1 { conversation_tags = rows })

unfoldable pub add_ticket_tag : ℕ → ℕ → ℕ → Text → TagTables → Bool × TagTables
unfolding get_or_create_tag add_link
add_ticket_tag new_id org ticket_id name s =
    let (t, s1) = get_or_create_tag new_id org name s in
    let (added, rows) = add_link ticket_id t.id s1.ticket_tags in
    (added, record s1 { ticket_tags = rows })

unfoldable pub remove_conversation_tag : ℕ → ℕ → Text → TagTables → Bool × TagTables
unfolding find_tag has_link drop_link
remove_conversation_tag org conversation_id name s = elim (find_tag org (normalized name) s.tags) [
  | none ↦ (false, s)
  | some t ↦
      let (removed, rows) = remove_link conversation_id t.id s.conversation_tags in
      (removed, record s { conversation_tags = rows })
]

unfoldable pub remove_ticket_tag : ℕ → ℕ → Text → TagTables → Bool × TagTables
unfolding find_tag has_link drop_link
remove_ticket_tag org ticket_id name s = elim (find_tag org (normalized name) s.tags) [
  | none ↦ (false, s)
  | some t ↦
      let (removed, rows) = remove_link ticket_id t.id s.ticket_tags in
      (removed, record s { ticket_tags = rows })
]

abbrev pub is_other_tag : ℕ → Link → Bool
is_other_tag tag l = not (l.tag_id == tag)

unfoldable pub delete_org_tag : ℕ → Text → TagTables → Bool × TagTables
unfolding find_tag
delete_org_tag org name s = elim (find_tag org (normalized name) s.tags) [
  | none ↦ (false, s)
  | some t ↦ (
    true,
    record {
      tags = filter_by (λ (u : Tag). not (u.id == t.id)) s.tags;
      conversation_tags = filter_by (is_other_tag t.id) s.conversation_tags;
      ticket_tags = filter_by (is_other_tag t.id) s.ticket_tags;
    },
  )
]

-- `select(Ticket.id).where(Ticket.conversation_id == conversation_id)`
unfoldable pub tickets_of : ℕ → List Ticket → List ℕ
tickets_of cid [] = []
tickets_of cid (t ∷ ts) =
    if t.conversation_id == cid then t.id ∷ tickets_of cid ts else tickets_of cid ts

unfoldable pub add_each : ℕ → ℕ → Text → List ℕ → TagTables → TagTables
unfolding add_ticket_tag
add_each new_id org name [] s = s
add_each new_id org name (t ∷ ts) s =
    add_each new_id org name ts (add_ticket_tag new_id org t name s).1

unfoldable pub remove_each : ℕ → Text → List ℕ → TagTables → TagTables
unfolding remove_ticket_tag
remove_each org name [] s = s
remove_each org name (t ∷ ts) s = remove_each org name ts (remove_ticket_tag org t name s).1

unfoldable pub sync_tag_to_conversation : ℕ → ℕ → ℕ → Text → TagTables → TagTables
unfolding add_conversation_tag
sync_tag_to_conversation new_id org conversation_id name s =
    (add_conversation_tag new_id org conversation_id name s).1

unfoldable pub unsync_tag_from_conversation : ℕ → ℕ → Text → TagTables → TagTables
unfolding remove_conversation_tag
unsync_tag_from_conversation org conversation_id name s =
    (remove_conversation_tag org conversation_id name s).1

unfoldable pub sync_tag_to_conversation_tickets :
    ℕ → ℕ → ℕ → Text → List Ticket → TagTables → TagTables
unfolding tickets_of add_each
sync_tag_to_conversation_tickets new_id org conversation_id name tickets s =
    add_each new_id org name (tickets_of conversation_id tickets) s

unfoldable pub unsync_tag_from_conversation_tickets :
    ℕ → ℕ → Text → List Ticket → TagTables → TagTables
unfolding tickets_of remove_each
unsync_tag_from_conversation_tickets org conversation_id name tickets s =
    remove_each org name (tickets_of conversation_id tickets) s
