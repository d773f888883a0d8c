-- ===== src/Assignment/Order.antt =====
-- The ordered set of ids, and positions in it.
use ai_customer_support_plat.Prelude.{
  ℕ, zero, suc, ◌+◌, ◌%◌, ◌<◌, ◌≡◌, ◌≢◌, ◌⊎◌, inr, refl, List, [], ◌∷◌, Option, none, some, length,
  In, In-contains, All, arith,
}
use ai_customer_support_plat.Assignment.Rotation.{insert_id, sorted_set, index, get_elem?, next_id}

-- Ascending, so each id stands once.
abbrev pub IsAscending : List ℕ → Type 0
IsAscending [] = Unit
IsAscending (x ∷ xs) = All (λ y. x < y) xs × IsAscending xs

In-insert_id : (a x : ℕ) (ys : List ℕ) → In a (insert_id x ys) → (a ≡ x) ⊎ In a ys
unfolding insert_id
In-insert_id a x [] h = h
In-insert_id a x (y ∷ ys) h = ground (arith, In-insert_id a x ys)

insert_id-In : (a x : ℕ) (ys : List ℕ) → (a ≡ x) ⊎ In a ys → In a (insert_id x ys)
unfolding insert_id
insert_id-In a x [] h = h
insert_id-In a x (y ∷ ys) h = ground (arith, insert_id-In a x ys)

pub In-sorted_set : (a : ℕ) (xs : List ℕ) → In a (sorted_set xs) → In a xs
unfolding sorted_set
In-sorted_set a [] h = h
In-sorted_set a (x ∷ xs) h = ground (arith, In-insert_id a x (sorted_set xs), In-sorted_set a xs)

pub sorted_set-In : (a : ℕ) (xs : List ℕ) → In a xs → In a (sorted_set xs)
unfolding sorted_set
sorted_set-In a [] h = h
sorted_set-In a (x ∷ xs) h = ground (arith, insert_id-In a x (sorted_set xs), sorted_set-In a xs)

All-insert_id :
    (b x : ℕ) (ys : List ℕ) → b < x → All (λ y. b < y) ys → All (λ y. b < y) (insert_id x ys)
unfolding insert_id
All-insert_id b x [] p h = (p, tt)
All-insert_id b x (y ∷ ys) p h = ground (arith, All-insert_id b x ys p)

All-lt_mono : (a b : ℕ) (ys : List ℕ) → a < b → All (λ y. b < y) ys → All (λ y. a < y) ys
All-lt_mono a b [] p h = tt
All-lt_mono a b (y ∷ ys) p h = (omega arith, All-lt_mono a b ys p h.1)

insert_id-IsAscending : (x : ℕ) (ys : List ℕ) → IsAscending ys → IsAscending (insert_id x ys)
unfolding insert_id
insert_id-IsAscending x [] h = (tt, tt)
insert_id-IsAscending x (y ∷ ys) h =
    ground (arith, insert_id-IsAscending x ys, All-lt_mono x y ys, All-insert_id y x ys)

pub sorted_set-IsAscending : (xs : List ℕ) → IsAscending (sorted_set xs)
unfolding sorted_set
sorted_set-IsAscending [] = tt
sorted_set-IsAscending (x ∷ xs) =
    insert_id-IsAscending x (sorted_set xs) (sorted_set-IsAscending xs)

pub get_elem?-In : (xs : List ℕ) (i a : ℕ) → get_elem? xs i ≡ some a → In a xs
unfolding get_elem?
get_elem?-In [] i a h = absurd (cc)
get_elem?-In (x ∷ xs) zero a h = ground arith
get_elem?-In (x ∷ xs) (suc i) a h = inr (get_elem?-In xs i a h)

pub get_elem?-some : (xs : List ℕ) (i : ℕ) → i < length xs → (a : ℕ) × (get_elem? xs i ≡ some a)
unfolding get_elem?
get_elem?-some [] i h = absurd (omega arith)
get_elem?-some (x ∷ xs) zero h = (x, refl)
get_elem?-some (x ∷ xs) (suc i) h = get_elem?-some xs i (omega arith)

All-lt_In : (b a : ℕ) (ys : List ℕ) → All (λ y. b < y) ys → In a ys → b < a
All-lt_In b a [] h m = absurd m
All-lt_In b a (y ∷ ys) h m = ground (arith, All-lt_In b a ys h.1)

-- In an ascending list the position of the entry at `i` is `i`.
pub index-get_elem? :
    (xs : List ℕ) (i a : ℕ) → IsAscending xs → get_elem? xs i ≡ some a → index a xs ≡ i
unfolding index get_elem?
index-get_elem? [] i a s h = absurd (cc)
index-get_elem? (x ∷ xs) zero a s h = ground arith
index-get_elem? (x ∷ xs) (suc i) a s h =
    ground (arith, index-get_elem? xs i a s.1 h, All-lt_In x a xs s.0 (get_elem?-In xs i a h))

-- The next id is one of the candidates.
pub next_id-In : (last : Option ℕ) (xs : List ℕ) (a : ℕ) → next_id last xs ≡ some a → In a xs
unfolding next_id
next_id-In none xs a h = get_elem?-In xs 0 a h
next_id-In (some l) xs a h =
    ground (arith, get_elem?-In xs 0 a, get_elem?-In xs ((index l xs + 1) % length xs) a)

-- There is a next id unless there is no candidate.
pub next_id-some : (last : Option ℕ) (x : ℕ) (xs : List ℕ) → next_id last (x ∷ xs) ≢ none
unfolding next_id
next_id-some none x xs h = ground (arith, get_elem?-some (x ∷ xs) 0 (omega arith))
next_id-some (some l) x xs h =
    let (a, first) = get_elem?-some (x ∷ xs) 0 (omega arith) in
    let (b, later) =
      get_elem?-some (x ∷ xs) ((index l (x ∷ xs) + 1) % length (x ∷ xs)) (omega arith) in
    ground (arith, first, later)

-- After the entry at `i` comes the entry at `i + 1`, and after the last one the first.
pub next_id-get_elem? :
    (xs : List ℕ) (i a : ℕ)
    → IsAscending xs
    → get_elem? xs i ≡ some a
    → next_id (some a) xs ≡ get_elem? xs ((i + 1) % length xs)
unfolding next_id
next_id-get_elem? xs i a s h =
    rw (In-contains a xs (get_elem?-In xs i a h), index-get_elem? xs i a s h)
