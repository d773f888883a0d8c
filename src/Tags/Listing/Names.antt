-- ===== src/Tags/Listing/Names.antt =====
-- Which names the sorted, joined and grouped lists have.
use ai_customer_support_plat.Prelude.{
  insert, sort_by, ℕ, ◌≡◌, ◌∙◌, refl, sym, ap, Bool, true, false, ◌&&◌, ◌||◌, List, [], ◌∷◌, ◌++◌,
  ◌==◌, any, Text, text_eq, text_eq_iff, arith, Bool-cases, inl, inr,
}
use ai_customer_support_plat.Tags.Service.{Tag, Link}
use ai_customer_support_plat.Tags.Listing.{
  get_list, append_to, group, join_tags, join_links, has_name, update,
}

-- The owner has a link to a tag of that name, in whichever organisation.
abbrev pub carries : ℕ → Text → List Link → List Tag → Bool
carries owner n links tags =
    any
      (λ (l : Link).
        l.owner_id == owner && any (λ (t : Tag). t.id == l.tag_id && text_eq n t.name) tags)
      links

has_name-insert :
    (p : Text → Text → Bool) (n m : Text) (ms : List Text)
    → has_name n (insert p m ms) ≡ (text_eq n m || has_name n ms)
unfolding has_name insert
has_name-insert p n m [] = ground arith
has_name-insert p n m (k ∷ ms) = ground (arith, has_name-insert p n m ms)

pub has_name-sort :
    (p : Text → Text → Bool) (n : Text) (ms : List Text) → has_name n (sort_by p ms) ≡ has_name n ms
unfolding has_name sort_by
has_name-sort p n [] = refl
has_name-sort p n (m ∷ ms) =
    has_name-insert p n m (sort_by p ms) ∙ ap (λ b. text_eq n m || b) (has_name-sort p n ms)

pub has_name-append :
    (n : Text) (xs ys : List Text) → has_name n (xs ++ ys) ≡ (has_name n xs || has_name n ys)
unfolding has_name
has_name-append n [] ys = refl
has_name-append n (x ∷ xs) ys = ground (arith, has_name-append n xs ys)

pub has_name-update :
    (n : Text) (names more : List Text)
    → has_name n (update names more) ≡ (has_name n names || has_name n more)
unfolding has_name update
has_name-update n names [] = ground arith
has_name-update n names (m ∷ more) = elim (Bool-cases (has_name m names)) [
  | inl x ↦ elim (Bool-cases (text_eq n m)) [
    | inl y ↦
        let e : n ≡ m = (text_eq_iff n m).0 y in
        let h : has_name n names ≡ true = rw e x in ground (arith, has_name-update n names more)
    | inr y ↦ ground (arith, has_name-update n names more)
  ]
  | inr x ↦ ground (arith, has_name-update n (m ∷ names) more)
]

-- The row of that key and name is there.
unfoldable pub has_row : ℕ → Text → List (ℕ × Text) → Bool
has_row k n [] = false
has_row k n ((j, m) ∷ rows) = (j == k && text_eq n m) || has_row k n rows

has_row-insert :
    (p : ℕ × Text → ℕ × Text → Bool) (k : ℕ) (n : Text) (j : ℕ) (m : Text) (rows : List (ℕ × Text))
    → has_row k n (insert p (j, m) rows) ≡ ((j == k && text_eq n m) || has_row k n rows)
unfolding has_row insert
has_row-insert p k n j m [] = ground arith
has_row-insert p k n j m ((i, l) ∷ rows) = ground (arith, has_row-insert p k n j m rows)

pub has_row-sort :
    (p : ℕ × Text → ℕ × Text → Bool) (k : ℕ) (n : Text) (rows : List (ℕ × Text))
    → has_row k n (sort_by p rows) ≡ has_row k n rows
unfolding has_row sort_by
has_row-sort p k n [] = refl
has_row-sort p k n ((j, m) ∷ rows) =
    has_row-insert p k n j m (sort_by p rows)
    ∙ ap (λ b. (j == k && text_eq n m) || b) (has_row-sort p k n rows)

has_row-append :
    (k : ℕ) (n : Text) (xs ys : List (ℕ × Text))
    → has_row k n (xs ++ ys) ≡ (has_row k n xs || has_row k n ys)
unfolding has_row
has_row-append k n [] ys = refl
has_row-append k n ((j, m) ∷ xs) ys = ground (arith, has_row-append k n xs ys)

has_row-join_tags :
    (k : ℕ) (n : Text) (l : Link) (tags : List Tag)
    → has_row k n (join_tags l tags)
      ≡ (l.owner_id == k && any (λ (t : Tag). t.id == l.tag_id && text_eq n t.name) tags)
unfolding has_row join_tags
has_row-join_tags k n l [] = ground arith
has_row-join_tags k n l (t ∷ tags) = ground (arith, has_row-join_tags k n l tags)

pub has_row-join_links :
    (p : ℕ → Bool) (k : ℕ) (n : Text) (links : List Link) (tags : List Tag)
    → has_row k n (join_links p links tags) ≡ (p k && carries k n links tags)
unfolding has_row join_links
has_row-join_links p k n [] tags = ground arith
has_row-join_links p k n (l ∷ links) tags = elim (Bool-cases (p l.owner_id)) [
  | inl x ↦ elim (Bool-cases (l.owner_id == k)) [
    | inl y ↦
        let e : l.owner_id ≡ k = ground arith in
        let h : p k ≡ true = rw (sym e) x in
        ground (
          arith,
          has_row-join_links p k n links tags,
          has_row-join_tags k n l tags,
          has_row-append k n (join_tags l tags) (join_links p links tags),
        )
    | inr y ↦ ground (
      arith,
      has_row-join_links p k n links tags,
      has_row-join_tags k n l tags,
      has_row-append k n (join_tags l tags) (join_links p links tags),
    )
  ]
  | inr x ↦ elim (Bool-cases (l.owner_id == k)) [
    | inl y ↦
        let e : l.owner_id ≡ k = ground arith in
        let h : p k ≡ false = rw (sym e) x in ground (arith, has_row-join_links p k n links tags)
    | inr y ↦ ground (arith, has_row-join_links p k n links tags)
  ]
]

get_list-append_to :
    (k j : ℕ) (n m : Text) (d : List (ℕ × List Text))
    → has_name n (get_list k (append_to j m d))
      ≡ (has_name n (get_list k d) || (j == k && text_eq n m))
unfolding get_list append_to has_name
get_list-append_to k j n m [] = ground arith
get_list-append_to k j n m ((i, xs) ∷ d) = elim (Bool-cases (i == j)) [
  | inl x ↦ elim (Bool-cases (i == k)) [
    | inl y ↦ ground (arith, has_name-append n xs (m ∷ []))
    | inr y ↦ ground arith
  ]
  | inr x ↦ elim (Bool-cases (i == k)) [
    | inl y ↦ ground arith
    | inr y ↦ ground (arith, get_list-append_to k j n m d)
  ]
]

pub get_list-group :
    (k : ℕ) (n : Text) (rows : List (ℕ × Text)) (d : List (ℕ × List Text))
    → has_name n (get_list k (group rows d)) ≡ (has_name n (get_list k d) || has_row k n rows)
unfolding group has_row
get_list-group k n [] d = ground arith
get_list-group k n ((j, m) ∷ rows) d =
    get_list-group k n rows (append_to j m d) ∙ ground (arith, get_list-append_to k j n m d)
