-- ===== src/Notifications/Delivery.antt =====
-- Who is notified, and how often.
use ai_customer_support_plat.Prelude.{
  ℕ, ◌+◌, ◌≡◌, ◌⊎◌, ◌∙◌, refl, ap, Bool, true, false, ◌&&◌, List, [], ◌∷◌, ◌++◌, none, some, inl,
  inr, if◌then◌else◌, map, filter_by, length, Text, arith, Option-cases,
}
use ai_customer_support_plat.Domain.{Team, TeamMember}
use ai_customer_support_plat.Assignment.Rotation.{member_ids}
use ai_customer_support_plat.Assignment.Service.{TeamRef}
use ai_customer_support_plat.Notifications.Service.{
  NotificationPreference, NotificationTables, get_preference, notification, notify, notify_each,
  resolve_team_id, notify_team,
}

-- The user wants notifications of the type shown, or mailed. Without a preference they are shown.
unfoldable pub wants_shown : List NotificationPreference → Text → ℕ → Bool
wants_shown ps ty u = elim (get_preference u ty ps) [ none ↦ true | some p ↦ p.enabled && p.in_app ]

unfoldable pub wants_mail : List NotificationPreference → Text → ℕ → Bool
wants_mail ps ty u = elim (get_preference u ty ps) [ none ↦ false | some p ↦ p.enabled && p.email ]

append_snoc : {A : Type 0} (xs : List A) (x : A) (ys : List A) → (xs ++ x ∷ []) ++ ys ≡ xs ++ x ∷ ys
append_snoc [] x ys = refl
append_snoc (y ∷ xs) x ys = ap (λ zs. y ∷ zs) (append_snoc xs x ys)

append_nil : {A : Type 0} (xs : List A) → xs ≡ xs ++ []
append_nil [] = refl
append_nil (x ∷ xs) = ap (λ zs. x ∷ zs) (append_nil xs)

module _ (org : ℕ) (event_type title body : Text) where
  -- The tables after the users of a list were notified: a notification and an event for each who
  -- wants it shown, and a mail for each who wants mail.
  pub record IsDelivered (us : List ℕ) (s : NotificationTables) (count : ℕ)
      (s' : NotificationTables) : Type 0 where
    pub counted : count ≡ length (filter_by (wants_shown s.preferences event_type) us)
    pub shown :
        s'.notifications
        ≡ s.notifications
          ++ map
              (notification org event_type title body)
              (filter_by (wants_shown s.preferences event_type) us)
    pub announced :
        s'.events
        ≡ s.events
          ++ map
              (notification org event_type title body)
              (filter_by (wants_shown s.preferences event_type) us)
    pub mailed : s'.emails ≡ s.emails ++ filter_by (wants_mail s.preferences event_type) us
    pub kept : s'.preferences ≡ s.preferences

  -- One user, decided by the two tests.
  notify_lem :
      (u : ℕ) (s : NotificationTables)
      → ((notify org event_type title body u s).0 ≡ wants_shown s.preferences event_type u)
        × ((notify org event_type title body u s).1 ≡ record s {
          notifications =
              if wants_shown s.preferences event_type u
              then s.notifications ++ notification org event_type title body u ∷ []
              else s.notifications;
          events =
              if wants_shown s.preferences event_type u
              then s.events ++ notification org event_type title body u ∷ []
              else s.events;
          emails = if wants_mail s.preferences event_type u then s.emails ++ u ∷ [] else s.emails;
        })
  unfolding notify wants_shown wants_mail
  notify_lem u s = elim (Option-cases (get_preference u event_type s.preferences)) [
    | inl x ↦ ground arith
    | inr (p, x) ↦ ground arith
  ]

  grow_shown :
      {A : Type 0} (b : Bool) (x : A) (xs zs ys : List A)
      → zs ≡ (if b then xs ++ x ∷ [] else xs) ++ ys
      → zs ≡ xs ++ (if b then x ∷ ys else ys)
  grow_shown true x xs zs ys h = h ∙ append_snoc xs x ys
  grow_shown false x xs zs ys h = h

  grow_count :
      (b : Bool) (u : ℕ) (us : List ℕ) (k : ℕ)
      → k ≡ length us
      → (if b then k + 1 else k) ≡ length (if b then u ∷ us else us)
  grow_count true u us k h = omega (arith, h)
  grow_count false u us k h = h

  map-if :
      (b : Bool) (u : ℕ) (us : List ℕ)
      → (if b
          then notification org event_type title body u
            ∷ map (notification org event_type title body) us
          else map (notification org event_type title body) us)
        ≡ map (notification org event_type title body) (if b then u ∷ us else us)
  map-if true u us = refl
  map-if false u us = refl

  pub notify_each-IsDelivered :
      (us : List ℕ) (s : NotificationTables)
      → IsDelivered us s
          (notify_each org event_type title body us s).0
          (notify_each org event_type title body us s).1
  unfolding notify_each
  notify_each-IsDelivered [] s = record {
    counted = refl;
    shown = append_nil s.notifications;
    announced = append_nil s.events;
    mailed = append_nil s.emails;
    kept = refl;
  }
  notify_each-IsDelivered (u ∷ us) s =
      let (answer, state) = notify_lem u s in
      let b = wants_shown s.preferences event_type u in
      let m = wants_mail s.preferences event_type u in
      let n = notification org event_type title body u in
      let s1 : NotificationTables = record s {
        notifications = if b then s.notifications ++ n ∷ [] else s.notifications;
        events = if b then s.events ++ n ∷ [] else s.events;
        emails = if m then s.emails ++ u ∷ [] else s.emails;
      } in
      let rest = notify_each-IsDelivered us s1 in
      let told = filter_by (wants_shown s.preferences event_type) us in
      rw (answer, state)
        (record {
          counted = grow_count b u told _ rest.counted;
          shown =
              grow_shown b n s.notifications _ _ rest.shown
              ∙ ap (λ ys. s.notifications ++ ys) (map-if b u told);
          announced =
              grow_shown b n s.events _ _ rest.announced
              ∙ ap (λ ys. s.events ++ ys) (map-if b u told);
          mailed = grow_shown m u s.emails _ _ rest.mailed;
          kept = rest.kept;
        })

-- A team that is found by identifier or name: each of its memberships whose user wants the type shown
-- gets one notification, in order, with one event each, each whose user wants mail one mail, nobody
-- else any, and the answer is the number of notifications; a team that is not found notifies nobody.
pub notify_team-IsDelivered :
    (org : ℕ) (event_type title body : Text) (name_matches : Text → TeamRef → Bool) (r : TeamRef)
    (teams : List Team) (members : List TeamMember) (s : NotificationTables)
    → ((resolve_team_id org event_type title body name_matches r teams ≡ none)
        × (notify_team org event_type title body name_matches r teams members s ≡ (0, s)))
      ⊎ ((tid : ℕ) × (resolve_team_id org event_type title body name_matches r teams ≡ some tid)
          × IsDelivered org event_type title body
              (member_ids tid members)
              s
              (notify_team org event_type title body name_matches r teams members s).0
              (notify_team org event_type title body name_matches r teams members s).1)
unfolding notify_team
notify_team-IsDelivered org ty title body nm r teams members s =
    elim (Option-cases (resolve_team_id org ty title body nm r teams)) [
      | inl x ↦ inl (x, rw (x, notify_team) refl)
      | inr (tid, x) ↦ inr (
        tid,
        x,
        rw (x, notify_team) (notify_each-IsDelivered org ty title body (member_ids tid members) s),
      )
    ]
