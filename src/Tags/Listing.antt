-- ===== src/Tags/Listing.antt =====
-- backend/app/modules/tags/application/service.py: the methods that list tags. A join of links with
-- tags goes through the links; `ORDER BY Tag.name` is a stable sort by the database's collation,
-- which is the parameter `before`; `sorted` compares code points. A dict of lists is its items.
use ai_customer_support_plat.Prelude.{
  ℕ, Bool, true, false, ◌&&◌, ◌||◌, List, [], ◌∷◌, ◌++◌, ◌==◌, ltb, if◌then◌else◌, filter_by,
  contains, map, Text, text_eq, sort_by, insert,
}
use ai_customer_support_plat.Domain.{Ticket}
use ai_customer_support_plat.Tags.Service.{Tag, Link, TagTables}
pub mod Names
pub mod Single
pub mod Effective

module _ {A : Type 0} where
  -- `mapping.get(key, [])`
  unfoldable pub get_list : ℕ → List (ℕ × List A) → List A
  get_list k [] = []
  get_list k ((j, xs) ∷ d) = if j == k then xs else get_list k d

  -- `mapping[key].append(value)` on a `defaultdict(list)`
  unfoldable pub append_to : ℕ → A → List (ℕ × List A) → List (ℕ × List A)
  append_to k x [] = (k, x ∷ []) ∷ []
  append_to k x ((j, xs) ∷ d) = if j == k then (j, xs ++ x ∷ []) ∷ d else (j, xs) ∷ append_to k x d

  unfoldable pub group : List (ℕ × A) → List (ℕ × List A) → List (ℕ × List A)
  unfolding append_to
  group [] d = d
  group ((k, x) ∷ rows) d = group rows (append_to k x d)

-- The names of the tags that one link joins.
unfoldable pub join_tags : Link → List Tag → List (ℕ × Text)
join_tags l [] = []
join_tags l (t ∷ ts) =
    if t.id == l.tag_id then (l.owner_id, t.name) ∷ join_tags l ts else join_tags l ts

-- The joined rows of the owners that `p` selects.
unfoldable pub join_links : (ℕ → Bool) → List Link → List Tag → List (ℕ × Text)
unfolding join_tags
join_links p [] tags = []
join_links p (l ∷ ls) tags =
    if p l.owner_id then join_tags l tags ++ join_links p ls tags else join_links p ls tags

abbrev pub row_name : ℕ × Text → Text
row_name (k, n) = n

-- Python's `<` on strings.
unfoldable pub precedes : Text → Text → Bool
precedes [] [] = false
precedes [] (d ∷ t) = true
precedes (c ∷ s) [] = false
precedes (c ∷ s) (d ∷ t) = ltb c d || (c == d && precedes s t)

unfoldable pub has_name : Text → List Text → Bool
has_name n [] = false
has_name n (m ∷ ms) = text_eq n m || has_name n ms

-- `names.update(more)`, a set of names as a list without repetitions.
unfoldable pub update : List Text → List Text → List Text
unfolding has_name
update names [] = names
update names (m ∷ more) = update (if has_name m names then names else m ∷ names) more

-- `names.update(ticket_tags.get(ticket_id, []))` for each ticket
unfoldable pub update_each : List ℕ → List (ℕ × List Text) → List Text → List Text
unfolding get_list update
update_each [] ticket_tags names = names
update_each (t ∷ ts) ticket_tags names =
    update_each ts ticket_tags (update names (get_list t ticket_tags))

-- The linked tickets' rows `(conversation_id, id)`.
unfoldable pub ticket_rows : List ℕ → List Ticket → List (ℕ × ℕ)
ticket_rows ids [] = []
ticket_rows ids (t ∷ ts) =
    if contains t.conversation_id ids
    then (t.conversation_id, t.id) ∷ ticket_rows ids ts
    else ticket_rows ids ts

abbrev pub row_ticket : ℕ × ℕ → ℕ
row_ticket (c, t) = t

-- One entry of the result.
unfoldable pub effective_of :
    List (ℕ × List Text) → List (ℕ × List ℕ) → List (ℕ × List Text) → ℕ → List Text
unfolding precedes update update_each get_list sort_by
effective_of conv_tags tickets_by_conv ticket_tags c =
    sort_by precedes
      (update_each (get_list c tickets_by_conv) ticket_tags (update [] (get_list c conv_tags)))

-- `out[conversation_id] = ...` for each of the conversations
unfoldable pub set_each : (ℕ → List Text) → List ℕ → List (ℕ × List Text)
set_each f [] = []
set_each f (c ∷ cs) = (c, f c) ∷ set_each f cs

module _ (before : Text → Text → Bool) where
  abbrev pub row_before : ℕ × Text → ℕ × Text → Bool
  row_before (j, m) (k, n) = before m n

  unfoldable pub list_tags : ℕ → List Link → List Tag → List Text
  unfolding join_links sort_by
  list_tags owner links tags =
      map row_name (sort_by row_before (join_links (λ (k : ℕ). k == owner) links tags))

  unfoldable pub list_org_tags : ℕ → TagTables → List Tag
  unfolding sort_by
  list_org_tags org s =
      sort_by (λ (t u : Tag). before t.name u.name)
        (filter_by (λ (t : Tag). t.organization_id == org) s.tags)

  unfoldable pub list_conversation_tags : ℕ → TagTables → List Text
  unfolding list_tags
  list_conversation_tags cid s = list_tags cid s.conversation_tags s.tags

  unfoldable pub list_ticket_tags : ℕ → TagTables → List Text
  unfolding list_tags
  list_ticket_tags tid s = list_tags tid s.ticket_tags s.tags

  unfoldable pub map_tags : List ℕ → List Link → List Tag → List (ℕ × List Text)
  unfolding join_links sort_by group
  map_tags [] links tags = []
  map_tags (k ∷ ks) links tags =
      group (sort_by row_before (join_links (λ (j : ℕ). contains j (k ∷ ks)) links tags)) []

  unfoldable pub map_ticket_tags : List ℕ → TagTables → List (ℕ × List Text)
  unfolding map_tags
  map_ticket_tags ids s = map_tags ids s.ticket_tags s.tags

  unfoldable pub map_conversation_tags : List ℕ → TagTables → List (ℕ × List Text)
  unfolding map_tags
  map_conversation_tags ids s = map_tags ids s.conversation_tags s.tags

  unfoldable pub map_effective_conversation_tags :
      List ℕ → List Ticket → TagTables → List (ℕ × List Text)
  unfolding map_ticket_tags map_conversation_tags effective_of set_each ticket_rows group
  map_effective_conversation_tags [] tickets s = []
  map_effective_conversation_tags (c ∷ cs) tickets s =
      let rows = ticket_rows (c ∷ cs) tickets in
      set_each
        (effective_of (map_conversation_tags (c ∷ cs) s) (group rows [])
          (map_ticket_tags (map row_ticket rows) s))
        (c ∷ cs)
