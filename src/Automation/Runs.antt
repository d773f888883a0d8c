-- ===== src/Automation/Runs.antt =====
-- What an execution records: its steps, its status and its audit entry, and how often actions run.
use ai_customer_support_plat.Prelude.{
  ℕ, zero, suc, ◌≡◌, ◌≢◌, ◌∙◌, ◌⊎◌, refl, sym, ap, inl, inr, Bool, true, false, not, List, [], ◌∷◌,
  none, is_some, if◌then◌else◌, Text, arith, length, All, Attempt, returns, raises, Option-cases,
  Attempt-cases,
}
use ai_customer_support_plat.Automation.Values.{Floats}
use ai_customer_support_plat.Automation.Conditions.{ValueError, evaluate_conditions}
use ai_customer_support_plat.Automation.Execution.{
  ExecutionStatus, running, completed, failed, skipped, action, Automation, AutomationExecutionStep,
  AutomationExecution, Event, Engine, run_actions, run_automation,
}

module _ {F C S A P : Type 0} (engine : Engine F C S A P) (publish : Event P → S → S)
    (depth : ℕ) where
  -- The first `n` actions, one after the other, each once, whatever they answer.
  unfoldable pub after : ℕ → List A → C × S → C × S
  after zero actions s = s
  after (suc n) [] s = s
  after (suc n) (a ∷ rest) s = after n rest (engine.execute_action publish depth a s).1

  -- How many actions run: all up to the first that raises, which counts.
  unfoldable pub ran : List A → C × S → ℕ
  ran [] s = 0
  ran (a ∷ rest) s =
      let (result, s1) = engine.execute_action publish depth a s in
      let more = ran rest s1 in elim result [ returns done ↦ suc more | raises e ↦ 1 ]

  -- Some action that runs raises.
  unfoldable pub fails : List A → C × S → Bool
  fails [] s = false
  fails (a ∷ rest) s =
      let (result, s1) = engine.execute_action publish depth a s in
      let more = fails rest s1 in elim result [ returns done ↦ more | raises e ↦ true ]

abbrev pub is_status : ExecutionStatus → ExecutionStatus → Bool
is_status running running = true
is_status completed completed = true
is_status failed failed = true
is_status skipped skipped = true
is_status _ _ = false

abbrev pub is_matched : Attempt ValueError Bool → Bool
is_matched (returns b) = b
is_matched (raises e) = false

-- The status after the conditions, and after whether an action failed.
abbrev pub ended_status : Attempt ValueError Bool → Bool → ExecutionStatus
ended_status (raises e) has_failed = failed
ended_status (returns false) has_failed = skipped
ended_status (returns true) true = failed
ended_status (returns true) false = completed

-- Steps of the first actions that returned, then, if one raised, the step of that one.
abbrev pub IsTrace : Bool → List AutomationExecutionStep → Type 0
IsTrace raised [] = raised ≡ false
IsTrace raised (x ∷ xs) =
    ((x.step_type ≡ action) × (x.status ≡ completed) × (x.error ≡ none) × IsTrace raised xs)
    ⊎ ((x.step_type ≡ action)
        × (x.status ≡ failed)
        × (is_some x.error ≡ true)
        × (xs ≡ [])
        × (raised ≡ true))

module _ {F C S A P : Type 0} (fl : Floats F) (engine : Engine F C S A P)
    (publish : Event P → S → S) (depth : ℕ) where
  run_actions_lem :
      (actions : List A) (s : C × S)
      → ((run_actions fl engine publish depth actions s).2
          ≡ after engine publish depth (ran engine publish depth actions s) actions s)
        × (length (run_actions fl engine publish depth actions s).0
            ≡ ran engine publish depth actions s)
        × (is_some (run_actions fl engine publish depth actions s).1
            ≡ fails engine publish depth actions s)
        × IsTrace
            (fails engine publish depth actions s)
            (run_actions fl engine publish depth actions s).0
  unfolding run_actions after ran fails
  run_actions_lem [] s = (refl, refl, refl, refl)
  run_actions_lem (a ∷ rest) s = elim (Attempt-cases (engine.execute_action publish depth a s).0) [
    | inl (done, x) ↦
        let (same, count, error, trace) =
          run_actions_lem rest (engine.execute_action publish depth a s).1 in
        rw (x, run_actions, ran, fails)
          (same, omega (arith, count), error, inl (refl, refl, refl, trace))
    | inr (e, x) ↦
        rw (x, run_actions, ran, fails) (refl, refl, refl, inr (refl, refl, refl, refl, refl))
  ]

  -- An execution never stays running: it has `completed_at`, and every step has ended.
  abbrev pub IsEnded : AutomationExecution → Type 0
  IsEnded x =
      (x.is_completed ≡ true)
      × (x.status ≢ running)
      × All (λ (t : AutomationExecutionStep). t.status ≢ running) x.steps

  trace-ended :
      (raised : Bool) (xs : List AutomationExecutionStep)
      → IsTrace raised xs
      → All (λ (t : AutomationExecutionStep). t.status ≢ running) xs
  trace-ended raised [] t = tt
  trace-ended raised (x ∷ xs) t = elim t [
    | inl (a, b, c, d) ↦ (λ e. absurd (ground arith), trace-ended raised xs d)
    | inr (a, b, c, d, e) ↦ (λ e. absurd (ground arith), rw d tt)
  ]

  module _ (automation : Automation F A) (event : Text) (ctx : C) (db : S) where
    abbrev pub decided : Attempt ValueError Bool
    decided = evaluate_conditions fl (engine.view ctx) automation.conditions

    abbrev pub all_ran : ℕ
    all_ran = ran engine publish depth automation.actions (ctx, db)

    abbrev pub has_failed : Bool
    has_failed = fails engine publish depth automation.actions (ctx, db)

    -- `run_automation` always ends the execution and all of its steps. The status is FAILED if the
    -- conditions raise, SKIPPED if they do not hold, else FAILED or COMPLETED as some action that
    -- runs raises or none; an audit entry is written for all but SKIPPED. If the conditions hold, the
    -- actions up to and with the first that raises run, in order, each once, and there is one
    -- step for each and one for the conditions; otherwise none runs and nothing changes.
    pub run_automation_lem :
        IsEnded (run_automation fl engine publish depth automation event (ctx, db)).0
        × ((run_automation fl engine publish depth automation event (ctx, db)).0.status
            ≡ ended_status decided has_failed)
        × ((run_automation fl engine publish depth automation event (ctx, db)).0.audited
            ≡ not (is_status (ended_status decided has_failed) skipped))
        × ((run_automation fl engine publish depth automation event (ctx, db)).1 ≡ (
            if is_matched decided
            then after engine publish depth all_ran automation.actions (ctx, db)
            else (ctx, db)))
        × (length (run_automation fl engine publish depth automation event (ctx, db)).0.steps
            ≡ suc (if is_matched decided then all_ran else 0))
    unfolding run_automation
    run_automation_lem = elim (Attempt-cases decided) [
      | inr (e, x) ↦
          rw (x, run_automation)
            (
              (refl, λ h. absurd (ground arith), (λ h. absurd (ground arith), tt)),
              refl,
              refl,
              refl,
              refl,
            )
      | inl (true, x) ↦
          let (same, count, error, trace) = run_actions_lem automation.actions (ctx, db) in
          let out = run_actions fl engine publish depth automation.actions (ctx, db) in
          elim (Option-cases out.1) [
            | inl y ↦
                let ok : has_failed ≡ false = sym error ∙ ap is_some y in
                rw (x, run_automation)
                  (rw (y, ok)
                    (
                      (
                        refl,
                        λ h. absurd (ground arith),
                        (λ h. absurd (ground arith), trace-ended has_failed out.0 trace),
                      ),
                      refl,
                      refl,
                      same,
                      ap suc count,
                    ))
            | inr (e, y) ↦
                let bad : has_failed ≡ true = sym error ∙ ap is_some y in
                rw (x, run_automation)
                  (rw (y, bad)
                    (
                      (
                        refl,
                        λ h. absurd (ground arith),
                        (λ h. absurd (ground arith), trace-ended has_failed out.0 trace),
                      ),
                      refl,
                      refl,
                      same,
                      ap suc count,
                    ))
          ]
      | inl (false, x) ↦
          rw (x, run_automation)
            (
              (refl, λ h. absurd (ground arith), (λ h. absurd (ground arith), tt)),
              refl,
              refl,
              refl,
              refl,
            )
    ]
