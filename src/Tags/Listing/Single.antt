-- ===== src/Tags/Listing/Single.antt =====
-- The listing of one conversation's tags, and its agreement with the listing of many.
use ai_customer_support_plat.Prelude.{
  insert, sort_by, ℕ, ◌≡◌, ◌∙◌, refl, sym, ap, Bool, ◌&&◌, ◌||◌, List, [], ◌∷◌, ◌++◌, ◌==◌, any,
  contains, map, Text, text_eq, arith,
}
use ai_customer_support_plat.Tags.Service.{Tag, Link, TagTables}
use ai_customer_support_plat.Tags.Listing.{
  get_list, join_tags, join_links, has_name, row_before, list_tags, list_conversation_tags,
  map_conversation_tags, row_name,
}
use ai_customer_support_plat.Tags.Listing.Names.{carries}
use ai_customer_support_plat.Tags.Listing.Effective.{map_tags_lem}

has_name-insert_row :
    (p : ℕ × Text → ℕ × Text → Bool) (n : Text) (j : ℕ) (m : Text) (rows : List (ℕ × Text))
    → has_name n (map row_name (insert p (j, m) rows))
      ≡ (text_eq n m || has_name n (map row_name rows))
unfolding has_name insert
has_name-insert_row p n j m [] = ground arith
has_name-insert_row p n j m ((i, l) ∷ rows) = ground (arith, has_name-insert_row p n j m rows)

has_name-sort_rows :
    (p : ℕ × Text → ℕ × Text → Bool) (n : Text) (rows : List (ℕ × Text))
    → has_name n (map row_name (sort_by p rows)) ≡ has_name n (map row_name rows)
unfolding has_name sort_by
has_name-sort_rows p n [] = refl
has_name-sort_rows p n ((j, m) ∷ rows) =
    has_name-insert_row p n j m (sort_by p rows)
    ∙ ap (λ b. text_eq n m || b) (has_name-sort_rows p n rows)

has_name-joined :
    (n : Text) (l : Link) (tags : List Tag) (rows : List (ℕ × Text))
    → has_name n (map row_name (join_tags l tags ++ rows)) ≡ (
        any (λ (t : Tag). t.id == l.tag_id && text_eq n t.name) tags
        || has_name n (map row_name rows))
unfolding has_name join_tags
has_name-joined n l [] rows = refl
has_name-joined n l (t ∷ tags) rows = ground (arith, has_name-joined n l tags rows)

has_name-join_links :
    (k : ℕ) (n : Text) (links : List Link) (tags : List Tag)
    → has_name n (map row_name (join_links (λ (j : ℕ). j == k) links tags)) ≡ carries k n links tags
unfolding has_name join_links
has_name-join_links k n [] tags = refl
has_name-join_links k n (l ∷ links) tags = ground (
  arith,
  has_name-join_links k n links tags,
  has_name-joined n l tags (join_links (λ (j : ℕ). j == k) links tags),
)

-- `list_conversation_tags` lists exactly the names of the tags linked to the conversation, and
-- `map_conversation_tags` has under each conversation that is asked for the names that
-- `list_conversation_tags` gives for it, and none under any other.
pub map_conversation_tags-list :
    (before : Text → Text → Bool) (ids : List ℕ) (s : TagTables) (c : ℕ) (n : Text)
    → (has_name n (list_conversation_tags before c s) ≡ carries c n s.conversation_tags s.tags)
      × (has_name n (get_list c (map_conversation_tags before ids s))
          ≡ (contains c ids && has_name n (list_conversation_tags before c s)))
unfolding list_conversation_tags list_tags map_conversation_tags
map_conversation_tags-list before ids s c n =
    let listed : has_name n (list_conversation_tags before c s)
        ≡ carries c n s.conversation_tags s.tags =
      has_name-sort_rows (row_before before) n
        (join_links (λ (j : ℕ). j == c) s.conversation_tags s.tags)
      ∙ has_name-join_links c n s.conversation_tags s.tags in
    (
      listed,
      map_tags_lem before c n ids s.conversation_tags s.tags
          ∙ ap (λ (b : Bool). contains c ids && b) (sym listed),
    )
