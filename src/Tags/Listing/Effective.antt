-- ===== src/Tags/Listing/Effective.antt =====
-- The tags of a conversation together with those of its tickets: which names the listing has.
use ai_customer_support_plat.Prelude.{
  sort_by, ℕ, ◌≡◌, ◌∙◌, refl, ap, ==_refl, Bool, true, false, ◌&&◌, ◌||◌, List, [], ◌∷◌, ◌++◌, ◌==◌,
  any, contains, map, Text, arith, Bool-cases, inl, inr,
}
use ai_customer_support_plat.Domain.{Ticket}
use ai_customer_support_plat.Tags.Service.{Tag, Link, TagTables}
use ai_customer_support_plat.Tags.Listing.{
  get_list, append_to, group, join_links, precedes, has_name, update, update_each, ticket_rows,
  row_ticket, effective_of, set_each, row_before, map_tags, map_ticket_tags, map_conversation_tags,
  map_effective_conversation_tags,
}
use ai_customer_support_plat.Prelude.{All}
use ai_customer_support_plat.Tags.Listing.Names.{
  carries, has_name-sort, has_name-update, has_row, has_row-sort, has_row-join_links,
  get_list-group,
}

module _ (before : Text → Text → Bool) where
  pub map_tags_lem :
      (k : ℕ) (n : Text) (ids : List ℕ) (links : List Link) (tags : List Tag)
      → has_name n (get_list k (map_tags before ids links tags))
        ≡ (contains k ids && carries k n links tags)
  unfolding map_tags has_row has_name get_list
  map_tags_lem k n [] links tags = refl
  map_tags_lem k n (i ∷ ids) links tags =
      let rows = join_links (λ (j : ℕ). contains j (i ∷ ids)) links tags in
      get_list-group k n (sort_by (row_before before) rows) []
      ∙ (has_row-sort (row_before before) k n rows
          ∙ has_row-join_links (λ (j : ℕ). contains j (i ∷ ids)) k n links tags)

update_each_lem :
    (n : Text) (ts : List ℕ) (d : List (ℕ × List Text)) (names : List Text)
    → has_name n (update_each ts d names)
      ≡ (has_name n names || any (λ (t : ℕ). has_name n (get_list t d)) ts)
unfolding update_each
update_each_lem n [] d names = ground arith
update_each_lem n (t ∷ ts) d names =
    update_each_lem n ts d (update names (get_list t d))
    ∙ ground (arith, has_name-update n names (get_list t d))

-- Some row of the key has the property.
unfoldable any_row : ℕ → (ℕ → Bool) → List (ℕ × ℕ) → Bool
any_row k f [] = false
any_row k f ((j, t) ∷ rows) = (j == k && f t) || any_row k f rows

any-append : (f : ℕ → Bool) (xs : List ℕ) (t : ℕ) → any f (xs ++ t ∷ []) ≡ (any f xs || f t)
any-append f [] t = ground arith
any-append f (x ∷ xs) t = ground (arith, any-append f xs t)

any-append_to :
    (f : ℕ → Bool) (k j t : ℕ) (d : List (ℕ × List ℕ))
    → any f (get_list k (append_to j t d)) ≡ (any f (get_list k d) || (j == k && f t))
unfolding get_list append_to
any-append_to f k j t [] = ground arith
any-append_to f k j t ((i, xs) ∷ d) = elim (Bool-cases (i == j)) [
  | inl x ↦ elim (Bool-cases (i == k)) [
    | inl y ↦ ground (arith, any-append f xs t)
    | inr y ↦ ground arith
  ]
  | inr x ↦ elim (Bool-cases (i == k)) [
    | inl y ↦ ground arith
    | inr y ↦ ground (arith, any-append_to f k j t d)
  ]
]

any-group :
    (f : ℕ → Bool) (k : ℕ) (rows : List (ℕ × ℕ)) (d : List (ℕ × List ℕ))
    → any f (get_list k (group rows d)) ≡ (any f (get_list k d) || any_row k f rows)
unfolding group any_row
any-group f k [] d = ground arith
any-group f k ((j, t) ∷ rows) d =
    any-group f k rows (append_to j t d) ∙ ground (arith, any-append_to f k j t d)

any_row-ticket_rows :
    (f : ℕ → Bool) (k : ℕ) (ids : List ℕ) (tickets : List Ticket)
    → contains k ids ≡ true
    → any_row k f (ticket_rows ids tickets)
      ≡ any (λ (t : Ticket). t.conversation_id == k && f t.id) tickets
unfolding any_row ticket_rows
any_row-ticket_rows f k ids [] h = refl
any_row-ticket_rows f k ids (t ∷ ts) h = elim (Bool-cases (t.conversation_id == k)) [
  | inl x ↦
      let e : t.conversation_id ≡ k = ground arith in
      let c : contains t.conversation_id ids ≡ true = rw e h in
      ground (arith, any_row-ticket_rows f k ids ts)
  | inr x ↦ ground (arith, any_row-ticket_rows f k ids ts)
]

abbrev IsAmong : List ℕ → ℕ × ℕ → Type 0
IsAmong ids row = contains (row_ticket row) ids ≡ true

IsAmong-weaken :
    (t : ℕ) (ids : List ℕ) (rows : List (ℕ × ℕ))
    → All (IsAmong ids) rows
    → All (IsAmong (t ∷ ids)) rows
IsAmong-weaken t ids [] a = tt
IsAmong-weaken t ids ((j, u) ∷ rows) a = (ground arith, IsAmong-weaken t ids rows a.1)

IsAmong-self : (rows : List (ℕ × ℕ)) → All (IsAmong (map row_ticket rows)) rows
IsAmong-self [] = tt
IsAmong-self ((j, t) ∷ rows) =
    (ground arith, IsAmong-weaken t (map row_ticket rows) rows (IsAmong-self rows))

any_row-IsAmong :
    (g : ℕ → Bool) (k : ℕ) (ids : List ℕ) (rows : List (ℕ × ℕ))
    → All (IsAmong ids) rows
    → any_row k (λ (t : ℕ). contains t ids && g t) rows ≡ any_row k g rows
unfolding any_row
any_row-IsAmong g k ids [] a = refl
any_row-IsAmong g k ids ((j, t) ∷ rows) a = ground (arith, any_row-IsAmong g k ids rows)

any-ext : (f g : ℕ → Bool) (xs : List ℕ) → ((t : ℕ) → f t ≡ g t) → any f xs ≡ any g xs
any-ext f g [] h = refl
any-ext f g (x ∷ xs) h = ground (arith, any-ext f g xs h, h x)

get_list-set_each :
    (f : ℕ → List Text) (k : ℕ) (ids : List ℕ)
    → contains k ids ≡ true
    → get_list k (set_each f ids) ≡ f k
unfolding get_list set_each
get_list-set_each f k [] h = absurd (ground arith)
get_list-set_each f k (i ∷ ids) h = elim (Bool-cases (i == k)) [
  | inl x ↦ let e : i ≡ k = ground arith in rw (e, ==_refl k) refl
  | inr x ↦ ground (arith, get_list-set_each f k ids)
]

-- For a conversation that is asked for, the names that `map_effective_conversation_tags` lists are
-- those of the tags linked to the conversation or to one of its tickets, and no others.
pub map_effective_conversation_tags_lem :
    (before : Text → Text → Bool) (ids : List ℕ) (tickets : List Ticket) (s : TagTables) (c : ℕ)
    (n : Text)
    → contains c ids ≡ true
    → has_name n (get_list c (map_effective_conversation_tags before ids tickets s)) ≡ (
        carries c n s.conversation_tags s.tags
        || any
            (λ (t : Ticket). t.conversation_id == c && carries t.id n s.ticket_tags s.tags)
            tickets)
unfolding map_effective_conversation_tags effective_of map_ticket_tags map_conversation_tags
    get_list has_name
map_effective_conversation_tags_lem before [] tickets s c n h = absurd (ground arith)
map_effective_conversation_tags_lem before (i ∷ is) tickets s c n h =
    let ids = i ∷ is in
    let rows = ticket_rows ids tickets in
    let linked = map_ticket_tags before (map row_ticket rows) s in
    let mine = get_list c (group rows []) in
    let own = get_list c (map_conversation_tags before ids s) in
    let g = λ (t : ℕ). carries t n s.ticket_tags s.tags in
    let e1 =
      get_list-set_each (effective_of (map_conversation_tags before ids s) (group rows []) linked) c
        ids h in
    let e2 = has_name-sort precedes n (update_each mine linked (update [] own)) in
    let e3 = update_each_lem n mine linked (update [] own) in
    let e4 = has_name-update n [] own in
    let e5 = map_tags_lem before c n ids s.conversation_tags s.tags in
    let e6 =
      any-ext (λ (t : ℕ). has_name n (get_list t linked))
        (λ (t : ℕ). contains t (map row_ticket rows) && g t) mine
        (λ t. map_tags_lem before t n (map row_ticket rows) s.ticket_tags s.tags) in
    let e7 = any-group (λ (t : ℕ). contains t (map row_ticket rows) && g t) c rows [] in
    let e8 = any_row-IsAmong g c (map row_ticket rows) rows (IsAmong-self rows) in
    let e9 = any_row-ticket_rows g c ids tickets h in
    let own_names = e4 ∙ (e5 ∙ ap (λ (b : Bool). b && carries c n s.conversation_tags s.tags) h) in
    let ticket_names = e6 ∙ (e7 ∙ (e8 ∙ e9)) in
    ap (has_name n) e1
    ∙ (e2
        ∙ (e3
            ∙ (ap (λ (b : Bool). b || any (λ (t : ℕ). has_name n (get_list t linked)) mine)
                  own_names
                ∙ ap (λ (b : Bool). carries c n s.conversation_tags s.tags || b) ticket_names)))
