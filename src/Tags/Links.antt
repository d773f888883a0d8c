-- ===== src/Tags/Links.antt =====
-- Links and tag rows as sets of pairs: how adding, removing and creating rows changes membership,
-- and the rows that stay distinct.
use ai_customer_support_plat.Prelude.{
  ℕ, ◌≡◌, ◌≢◌, refl, sym, Bool, false, not, ◌&&◌, ◌||◌, List, [], ◌∷◌, ◌++◌, ◌==◌, filter_by, arith,
  All, Bool-cases, inl, inr,
}
use ai_customer_support_plat.Tags.Service.{
  Tag, Link, is_named, is_link, has_link, add_link, drop_link, is_other_tag,
}

-- No two rows link one tag to one owner.
abbrev pub IsLinkedOnce : List Link → Type 0
IsLinkedOnce [] = Unit
IsLinkedOnce (l ∷ ls) = (has_link l.owner_id l.tag_id ls ≡ false) × IsLinkedOnce ls

-- No two tags have one identifier, or one organisation and name.
abbrev pub Differs : Tag → Tag → Type 0
Differs t u = (u.id ≢ t.id) × (is_named t.organization_id t.name u ≡ false)

abbrev pub IsUnique : List Tag → Type 0
IsUnique [] = Unit
IsUnique (t ∷ ts) = All (Differs t) ts × IsUnique ts

unfoldable pub has_id : ℕ → List Tag → Bool
has_id i [] = false
has_id i (t ∷ ts) = (t.id == i) || has_id i ts

pub has_link-snoc :
    (o g o' g' : ℕ) (ls : List Link)
    → has_link o' g' (ls ++ record { owner_id = o; tag_id = g } ∷ [])
      ≡ (has_link o' g' ls || (o == o' && g == g'))
unfolding has_link
has_link-snoc o g o' g' [] = ground arith
has_link-snoc o g o' g' (l ∷ ls) = ground (arith, has_link-snoc o g o' g' ls)

pub has_link-add :
    (o g o' g' : ℕ) (ls : List Link)
    → has_link o' g' (add_link o g ls).1 ≡ (has_link o' g' ls || (o == o' && g == g'))
unfolding add_link
has_link-add o g o' g' ls = elim (Bool-cases (has_link o g ls)) [
  | inl x ↦ elim (Bool-cases (o == o' && g == g')) [
    | inl y ↦ let eo : o ≡ o' = ground arith in let eg : g ≡ g' = ground arith in ground arith
    | inr y ↦ ground arith
  ]
  | inr x ↦ ground (arith, has_link-snoc o g o' g' ls)
]

pub has_link-drop :
    (o g o' g' : ℕ) (ls : List Link)
    → IsLinkedOnce ls
    → has_link o' g' (drop_link o g ls) ≡ (has_link o' g' ls && not (o == o' && g == g'))
unfolding has_link drop_link
has_link-drop o g o' g' [] d = ground arith
has_link-drop o g o' g' (l ∷ ls) d = elim (Bool-cases (is_link o g l)) [
  | inl x ↦
      let eo : l.owner_id ≡ o = ground arith in
      let eg : l.tag_id ≡ g = ground arith in
      let fresh : has_link o g ls ≡ false = rw (sym eo, sym eg) d.0 in
      elim (Bool-cases (o == o' && g == g')) [
        | inl y ↦ let eo' : o ≡ o' = ground arith in let eg' : g ≡ g' = ground arith in ground arith
        | inr y ↦ ground arith
      ]
  | inr x ↦ ground (arith, has_link-drop o g o' g' ls d.1)
]

pub has_link-filter :
    (g o' g' : ℕ) (ls : List Link)
    → has_link o' g' (filter_by (is_other_tag g) ls) ≡ (has_link o' g' ls && not (g == g'))
unfolding has_link
has_link-filter g o' g' [] = ground arith
has_link-filter g o' g' (l ∷ ls) = ground (arith, has_link-filter g o' g' ls)

pub IsLinkedOnce-snoc :
    (o g : ℕ) (ls : List Link)
    → IsLinkedOnce ls
    → has_link o g ls ≡ false
    → IsLinkedOnce (ls ++ record { owner_id = o; tag_id = g } ∷ [])
unfolding has_link
IsLinkedOnce-snoc o g [] d h = (refl, tt)
IsLinkedOnce-snoc o g (l ∷ ls) d h = (
  ground (arith, has_link-snoc o g l.owner_id l.tag_id ls),
  IsLinkedOnce-snoc o g ls d.1 (ground arith),
)

pub add_link-IsLinkedOnce :
    (o g : ℕ) (ls : List Link) → IsLinkedOnce ls → IsLinkedOnce (add_link o g ls).1
unfolding add_link
add_link-IsLinkedOnce o g ls d = elim (Bool-cases (has_link o g ls)) [
  | inl x ↦ rw (x, add_link) d
  | inr x ↦ rw (x, add_link) (IsLinkedOnce-snoc o g ls d x)
]

pub drop_link-IsLinkedOnce :
    (o g : ℕ) (ls : List Link) → IsLinkedOnce ls → IsLinkedOnce (drop_link o g ls)
unfolding drop_link
drop_link-IsLinkedOnce o g [] d = tt
drop_link-IsLinkedOnce o g (l ∷ ls) d = elim (Bool-cases (is_link o g l)) [
  | inl x ↦ rw (x, drop_link) d.1
  | inr x ↦
      rw (x, drop_link)
        (
          ground (arith, has_link-drop o g l.owner_id l.tag_id ls d.1),
          drop_link-IsLinkedOnce o g ls d.1,
        )
]

pub filter_by-IsLinkedOnce :
    (g : ℕ) (ls : List Link) → IsLinkedOnce ls → IsLinkedOnce (filter_by (is_other_tag g) ls)
filter_by-IsLinkedOnce g [] d = tt
filter_by-IsLinkedOnce g (l ∷ ls) d = elim (Bool-cases (l.tag_id == g)) [
  | inl x ↦ rw x (filter_by-IsLinkedOnce g ls d.1)
  | inr x ↦
      rw x
        (ground (arith, has_link-filter g l.owner_id l.tag_id ls), filter_by-IsLinkedOnce g ls d.1)
]
