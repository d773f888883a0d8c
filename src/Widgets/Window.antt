-- ===== src/Widgets/Window.antt =====
-- The limiter against a plain description of it, which keeps every hit and counts the recent ones.
use ai_customer_support_plat.Prelude.{
  ℕ, ◌+◌, ◌≤◌, ◌≡◌, ◌∙◌, refl, sym, ap, subst, inl, inr, ltb, leb, ◌==◌, ==_iff, Bool, true, false,
  List, [], ◌∷◌, ◌++◌, if◌then◌else◌, length, filter_by, All, arith, Bool-cases,
}
use ai_customer_support_plat.Widgets.RateLimit.{
  Limits, Hits, expire, admit, set_bucket, check, check_all,
}

-- The hits that the window still covers at the time `now`.
unfoldable pub recent : ℕ → ℕ → List ℕ → List ℕ
recent window now log = filter_by (λ hit. leb now (hit + window)) log

-- Each call is answered from the full log of the hits that passed: it passes when fewer than the
-- allowed number of them are recent.
unfoldable pub count_all : Limits → List (ℕ × ℕ) → Hits → List Bool
count_all l [] log = []
count_all l (call ∷ calls) log =
    let passes = ltb (length (recent l.window_seconds call.1 (log call.0))) l.max_requests in
    passes
    ∷ count_all l calls (if passes then set_bucket call.0 (log call.0 ++ call.1 ∷ []) log else log)

-- The clock never goes back.
abbrev pub IsOrdered : ℕ → List (ℕ × ℕ) → Type 0
IsOrdered t [] = Unit
IsOrdered t (call ∷ calls) = (t ≤ call.1) × IsOrdered call.1 calls

module _ (window : ℕ) where
  expire-expire :
      (t now : ℕ) (bucket : List ℕ)
      → t ≤ now
      → expire window now (expire window t bucket) ≡ expire window now bucket
  unfolding expire
  expire-expire t now [] h = refl
  expire-expire t now (hit ∷ bucket) h = elim (Bool-cases (ltb (hit + window) t)) [
    | inl old ↦ rw (old, old-later t now hit h old) (expire-expire t now bucket h)
    | inr kept ↦ rw kept refl
  ]
    where
      old-later :
          (t now hit : ℕ) → t ≤ now → ltb (hit + window) t ≡ true → ltb (hit + window) now ≡ true
      old-later t now hit h old = ground arith

  expire-All :
      (t now : ℕ) (bucket : List ℕ)
      → All (λ hit. hit ≤ t) bucket
      → All (λ hit. hit ≤ t) (expire window now bucket)
  unfolding expire
  expire-All t now [] h = tt
  expire-All t now (hit ∷ bucket) h = elim (Bool-cases (ltb (hit + window) now)) [
    | inl old ↦ rw old (expire-All t now bucket h.1)
    | inr kept ↦ rw kept h
  ]

  -- A hit that is no older than the others may be added before or after the old ones are dropped.
  expire-append :
      (now : ℕ) (bucket : List ℕ) (new : ℕ)
      → All (λ hit. hit ≤ new) bucket
      → expire window now (bucket ++ new ∷ [])
        ≡ expire window now bucket ++ recent window now (new ∷ [])
  unfolding expire recent
  expire-append now [] new h = ground arith
  expire-append now (hit ∷ bucket) new h = elim (Bool-cases (ltb (hit + window) now)) [
    | inl old ↦ rw old (expire-append now bucket new h.1)
    | inr kept ↦ rw (kept, new-recent now hit new h.0 kept) refl
  ]
    where
      new-recent :
          (now hit new : ℕ)
          → hit ≤ new
          → ltb (hit + window) now ≡ false
          → leb now (new + window) ≡ true
      new-recent now hit new h kept = ground arith

  recent-append :
      (now : ℕ) (log : List ℕ) (new : ℕ)
      → recent window now (log ++ new ∷ []) ≡ recent window now log ++ recent window now (new ∷ [])
  unfolding recent
  recent-append now [] new = refl
  recent-append now (hit ∷ log) new = elim (Bool-cases (leb now (hit + window))) [
    | inl covered ↦ rw covered (ap (λ r. hit ∷ r) (recent-append now log new))
    | inr old ↦ rw old (recent-append now log new)
  ]

  -- At every later time the bucket shows, once its old hits are dropped, the recent hits of the log.
  abbrev Shows : ℕ → List ℕ → List ℕ → Type 0
  Shows t bucket log =
      All (λ hit. hit ≤ t) bucket
      × ((now : ℕ) → t ≤ now → expire window now bucket ≡ recent window now log)

  All-later :
      (t now : ℕ) (bucket : List ℕ)
      → t ≤ now
      → All (λ hit. hit ≤ t) bucket
      → All (λ hit. hit ≤ now) bucket
  All-later t now [] h a = tt
  All-later t now (hit ∷ bucket) h a = (omega (arith, h, a.0), All-later t now bucket h a.1)

  All-append :
      (now : ℕ) (bucket : List ℕ)
      → All (λ hit. hit ≤ now) bucket
      → All (λ hit. hit ≤ now) (bucket ++ now ∷ [])
  All-append now [] a = (omega arith, tt)
  All-append now (hit ∷ bucket) a = (a.0, All-append now bucket a.1)

  Shows-later :
      (t now : ℕ) (bucket log : List ℕ) → t ≤ now → Shows t bucket log → Shows now bucket log
  Shows-later t now bucket log h s =
      (All-later t now bucket h s.0, λ later k. s.1 later (omega (arith, h, k)))

  Shows-expire :
      (t now : ℕ) (bucket log : List ℕ)
      → t ≤ now
      → Shows t bucket log
      → Shows now (expire window now bucket) log
  Shows-expire t now bucket log h s = (
    expire-All now now bucket (All-later t now bucket h s.0),
    λ later k. expire-expire now later bucket k ∙ s.1 later (omega (arith, h, k)),
  )

  Shows-append :
      (now : ℕ) (bucket log : List ℕ)
      → Shows now bucket log
      → Shows now (bucket ++ now ∷ []) (log ++ now ∷ [])
  Shows-append now bucket log s = (
    All-append now bucket s.0,
    λ later k.
        expire-append later bucket now s.0
        ∙ ap (λ r. r ++ recent window later (now ∷ [])) (s.1 later k)
        ∙ sym (recent-append later log now),
  )

  Shows-set :
      (t key : ℕ) (bucket log : List ℕ) (hits logs : Hits)
      → ((k : ℕ) → Shows t (hits k) (logs k))
      → Shows t bucket log
      → (k : ℕ) → Shows t (set_bucket key bucket hits k) (set_bucket key log logs k)
  unfolding set_bucket
  Shows-set t key bucket log hits logs all s k = elim (Bool-cases (k == key)) [
    | inl same ↦ rw same s
    | inr other ↦ rw other (all k)
  ]

  -- The bucket of one key after a refused call.
  Shows-refresh :
      (t now key : ℕ) (hits logs : Hits)
      → t ≤ now
      → ((k : ℕ) → Shows t (hits k) (logs k))
      → (k : ℕ) → Shows now (set_bucket key (expire window now (hits key)) hits k) (logs k)
  unfolding set_bucket
  Shows-refresh t now key hits logs h all k = elim (Bool-cases (k == key)) [
    | inl same ↦ rw same (
        subst (λ j. Shows now (expire window now (hits j)) (logs k)) ((==_iff k key).0 same)
          (Shows-expire t now (hits k) (logs k) h (all k)))
    | inr other ↦ rw other (Shows-later t now (hits k) (logs k) h (all k))
  ]

module _ (l : Limits) where
  leb-ltb : (a b : ℕ) → leb a b ≡ true → ltb b a ≡ false
  leb-ltb a b h = ground arith

  leb-ltb-false : (a b : ℕ) → leb a b ≡ false → ltb b a ≡ true
  leb-ltb-false a b h = ground arith

  check_all-from :
      (t : ℕ) (calls : List (ℕ × ℕ)) (hits logs : Hits)
      → ((k : ℕ) → Shows l.window_seconds t (hits k) (logs k))
      → IsOrdered t calls
      → (check_all l calls hits).0 ≡ count_all l calls logs
  unfolding check_all count_all check admit
  check_all-from t [] hits logs all h = refl
  check_all-from t (call ∷ calls) hits logs all h =
      let bucket = expire l.window_seconds call.1 (hits call.0) in
      let shown = (all call.0).1 call.1 h.0 in
      let later = λ (k : ℕ). Shows-later l.window_seconds t call.1 (hits k) (logs k) h.0 (all k) in
      let r = recent l.window_seconds call.1 (logs call.0) in
      elim (Bool-cases (leb l.max_requests (length r))) [
        | inl full ↦
            rw
              (
                ap (λ b. leb l.max_requests (length b)) shown ∙ full,
                leb-ltb l.max_requests (length r) full,
              )
              (ap (λ bs. false ∷ bs)
                (check_all-from call.1 calls _ logs
                  (Shows-refresh l.window_seconds t call.1 call.0 hits logs h.0 all) h.1))
        | inr free ↦
            rw
              (
                ap (λ b. leb l.max_requests (length b)) shown ∙ free,
                leb-ltb-false l.max_requests (length r) free,
              )
              (ap (λ bs. true ∷ bs)
                (check_all-from call.1 calls _ _
                  (Shows-set l.window_seconds call.1 call.0 _ _ hits logs later (
                    Shows-append l.window_seconds call.1 bucket (logs call.0) (
                      Shows-expire l.window_seconds t call.1 (hits call.0) (logs call.0) h.0
                        (all call.0))))
                  h.1))
      ]

  -- While the clock does not go back, the limiter answers every sequence of calls as the count over the
  -- full log does: a call passes exactly when fewer than `max_requests` calls of its key that passed
  -- are within the window.
  pub check_all-counts :
      (calls : List (ℕ × ℕ))
      → IsOrdered 0 calls
      → (check_all l calls (λ key. [])).0 ≡ count_all l calls (λ key. [])
  unfolding expire recent
  check_all-counts calls h =
      check_all-from 0 calls (λ key. []) (λ key. []) (λ key. (tt, λ now k. refl)) h
