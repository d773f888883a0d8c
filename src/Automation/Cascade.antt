-- ===== src/Automation/Cascade.antt =====
-- Events that actions publish while an event is handled: how deep they nest.
use ai_customer_support_plat.Prelude.{
  ℕ, zero, suc, ◌+◌, ◌≡◌, ◌∙◌, ◌≤◌, ◌⊎◌, refl, sym, ap, inl, inr, true, false, List, [], ◌∷◌, none,
  leb, Text, arith, Bool-cases, Option-cases, Attempt-cases,
}
use ai_customer_support_plat.Automation.Values.{Floats}
use ai_customer_support_plat.Automation.Conditions.{evaluate_conditions}
use ai_customer_support_plat.Automation.Execution.{
  Automation, event_to_trigger, max_execution_depth, Event, Engine, AutomationExecution,
  run_actions, run_automation, run_each, execute_for_event, handle_domain_event,
  matching_automations,
}

-- An event that starts no automation, or that is one level deeper.
abbrev pub IsDeeper : {P : Type 0} → ℕ → Event P → Type 0
IsDeeper depth e = (event_to_trigger e.name ≡ none) ⊎ (e.execution_depth ≡ suc depth)

module _ {F C S A P : Type 0} (fl : Floats F) (engine : Engine F C S A P)
    (deeper : (p q : Event P → S → S) (depth : ℕ)
      → ((e : Event P) (db : S) → IsDeeper depth e → p e db ≡ q e db)
      → (a : A) (s : C × S)
      → engine.execute_action p depth a s ≡ engine.execute_action q depth a s) where
  module _ (p q : Event P → S → S) (depth : ℕ)
      (agree : (e : Event P) (db : S) → IsDeeper depth e → p e db ≡ q e db) where
    run_actions-agree :
        (actions : List A) (s : C × S)
        → run_actions fl engine p depth actions s ≡ run_actions fl engine q depth actions s
    unfolding run_actions
    run_actions-agree [] s = refl
    run_actions-agree (a ∷ rest) s =
        let d = deeper p q depth agree a s in
        let (result, s1) = engine.execute_action q depth a s in
        elim (Attempt-cases result) [
          | inl (done, x) ↦ rw (d, x, run_actions) (rw (d, run_actions-agree rest s1) refl)
          | inr (message, x) ↦ rw (d, x, run_actions) (rw d refl)
        ]

    run_automation-agree :
        (automation : Automation F A) (event : Text) (s : C × S)
        → run_automation fl engine p depth automation event s
          ≡ run_automation fl engine q depth automation event s
    unfolding run_automation
    run_automation-agree automation event (ctx, db) =
        elim (Attempt-cases (evaluate_conditions fl (engine.view ctx) automation.conditions)) [
          | inr (e, x) ↦ rw (x, run_automation) refl
          | inl (true, x) ↦
              rw (x, run_automation) (rw (run_actions-agree automation.actions (ctx, db)) refl)
          | inl (false, x) ↦ rw (x, run_automation) refl
        ]

    run_each-agree :
        (rows : List (Automation F A)) (event : Text) (s : C × S)
        → run_each fl engine p depth rows event s ≡ run_each fl engine q depth rows event s
    unfolding run_each
    run_each-agree [] event s = refl
    run_each-agree (a ∷ rest) event s =
        let (out, (ctx, db)) = run_automation fl engine q depth a event s in
        rw (run_automation-agree a event s, run_each-agree rest event (ctx, engine.store out db))
          refl

  execute_for_event-agree :
      (p q : Event P → S → S) (org : ℕ) (e : Event P) (db : S)
      → ((f : Event P) (s : S) → IsDeeper e.execution_depth f → p f s ≡ q f s)
      → execute_for_event fl engine p org e db ≡ execute_for_event fl engine q org e db
  unfolding execute_for_event
  execute_for_event-agree p q org e db agree =
      elim (Bool-cases (leb max_execution_depth e.execution_depth)) [
        | inl x ↦ rw (x, execute_for_event) refl
        | inr x ↦ elim (Option-cases (event_to_trigger e.name)) [
          | inl y ↦ rw (x, y, execute_for_event) refl
          | inr (trigger, y) ↦
              let rows = matching_automations org trigger (engine.automations db) in
              let same =
                run_each-agree p q e.execution_depth agree rows e.name
                  (engine.build org e db, db) in
              rw (x, y, execute_for_event) (rw same refl)
        ]
      ]

  -- An event at the greatest depth, or one that starts nothing, changes nothing.
  quiet :
      (fuel : ℕ) (e : Event P) (db : S)
      → (leb 3 e.execution_depth ≡ true) ⊎ (event_to_trigger e.name ≡ none)
      → handle_domain_event fl engine fuel e db ≡ db
  unfolding handle_domain_event execute_for_event
  quiet zero e db h = refl
  quiet (suc fuel) e db h = elim (Option-cases e.organization_id) [
    | inl x ↦ rw (x, handle_domain_event) refl
    | inr (org, x) ↦ elim h [
      | inl y ↦ rw (x, handle_domain_event) (rw (y, execute_for_event) refl)
      | inr y ↦ elim (Bool-cases (leb 3 e.execution_depth)) [
        | inl z ↦ rw (x, handle_domain_event) (rw (z, execute_for_event) refl)
        | inr z ↦ rw (x, handle_domain_event) (rw (z, y, execute_for_event) refl)
      ]
    ]
  ]

  handle_domain_event-agree :
      (k k' : ℕ) (e : Event P) (db : S)
      → 3 ≤ e.execution_depth + k
      → 3 ≤ e.execution_depth + k'
      → handle_domain_event fl engine k e db ≡ handle_domain_event fl engine k' e db
  unfolding handle_domain_event
  handle_domain_event-agree zero k' e db h h' = sym (quiet k' e db (inl (ground arith)))
  handle_domain_event-agree (suc k) zero e db h h' = quiet (suc k) e db (inl (ground arith))
  handle_domain_event-agree (suc k) (suc k') e db h h' = elim (Option-cases e.organization_id) [
    | inl x ↦ rw (x, handle_domain_event) refl
    | inr (org, x) ↦
        let agree : (f : Event P) (s : S)
            → IsDeeper e.execution_depth f
            → handle_domain_event fl engine k f s ≡ handle_domain_event fl engine k' f s =
          λ f s d. elim d [
            | inl u ↦ quiet k f s (inr u) ∙ sym (quiet k' f s (inr u))
            | inr d ↦
                handle_domain_event-agree k k' f s (omega (arith, d, h)) (omega (arith, d, h'))
          ] in
        rw (x, handle_domain_event)
          (ap (λ (r : List AutomationExecution × S). r.1)
            (execute_for_event-agree (handle_domain_event fl engine k)
              (handle_domain_event fl engine k') org e db agree))
  ]

  -- If the events that an action publishes either start no automation or are one level deeper than
  -- the execution that it belongs to, then the handling of any event, with all that is published
  -- during it, ends after at most three nested levels: allowing for more changes nothing.
  pub handle_domain_event-IsBounded :
      (extra : ℕ) (e : Event P) (db : S)
      → handle_domain_event fl engine (3 + extra) e db ≡ handle_domain_event fl engine 3 e db
  handle_domain_event-IsBounded extra e db =
      handle_domain_event-agree (3 + extra) 3 e db (omega arith) (omega arith)
