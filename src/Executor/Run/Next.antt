-- ===== src/Executor/Run/Next.antt =====
-- Where a step may lead (`executeStepWithRetry` and below in internal/engine/executor.go).
use intelligent_workflows.Prelude.{
  ℕ, zero, suc, String, ◌≡◌, ◌⊎◌, inl, inr, refl, Bool, true, false, Option, none, some, Err, msg,
  Result, ok, err, ◌==◌, List-cases, Option-cases, if◌then◌else◌,
}
use intelligent_workflows.Value.{Fields, Go}
use intelligent_workflows.Models.Workflow.{Condition, StepInfo, Step, step, info}
use intelligent_workflows.Evaluator.{evaluate}
use intelligent_workflows.Executor.State.{Ext, World, M, Context, CtxErr, deadline_exceeded}
use intelligent_workflows.Executor.Steps.{
  StepOutcome, execute_condition_step, chosen, evaluated, acted, execute_action_step,
  execute_execute_step, execute_wait_step,
}
use intelligent_workflows.Executor.Actions.{ActionResult}
use intelligent_workflows.Executor.Steps.Dispatch.{
  started_record, if_created, run_and_update, recorded, dispatch, execute_step,
  execute_parallel_step, execute_foreach_step,
}
use intelligent_workflows.Executor.Retry.{
  back_off, gives_up, max_attempts, after_failure, attempt_ended, attempts, execute_step_with_retry,
  step_context,
}

-- The references that the executor may follow from a step.
abbrev pub Follows : StepInfo → String → Type 0
Follows i name = (name ≡ "") ⊎ ((name ≡ i.on_true) ⊎ ((name ≡ i.on_false) ⊎ (name ≡ i.next)))

if-both {ℓ} :
    {A : Type 0} (P : A → Type ℓ) (b : Bool) {x y : A} → P x → P y → P (if b then x else y)
if-both P true h k = h
if-both P false h k = k

module _ (go : Go) (ext : Ext) (i : StepInfo) where
  abbrev Leads : M StepOutcome → Type 0
  Leads m = (w : World) → Follows i (m w).0.next

  Leads-evaluated : (b : Result Bool) → Follows i (evaluated go ext i b).next
  Leads-evaluated (err e) = inl refl
  Leads-evaluated (ok true) = inr (inl refl)
  Leads-evaluated (ok false) = inr (inr (inl refl))

  Leads-chosen :
      (context : Fields) (c : Result Condition) → Follows i (chosen go ext i context c).next
  Leads-chosen context (err e) = inl refl
  Leads-chosen context (ok c) = Leads-evaluated (evaluate go c context)

  Leads-condition : (context : Fields) → Leads (execute_condition_step go ext i context)
  unfolding execute_condition_step
  Leads-condition context w = Leads-chosen context _

  Leads-acted : (r : Result ActionResult) → Follows i (acted go ext r).next
  Leads-acted (err e) = inl refl
  Leads-acted (ok r) = inl refl

  Leads-action : (context : Fields) → Leads (execute_action_step go ext i context)
  unfolding execute_action_step
  Leads-action context w = Leads-acted _

  Leads-execute : (context : Fields) → Leads (execute_execute_step go ext i context)
  unfolding execute_execute_step
  Leads-execute context w = elim (List-cases i.execute) [
    | inl e ↦ rw (e, execute_execute_step) (inl refl)
    | inr (a, rest, e) ↦ rw (e, execute_execute_step) (Leads-acted _)
  ]

  Leads-wait : Leads (execute_wait_step go ext i)
  unfolding execute_wait_step
  Leads-wait w = elim (Option-cases i.wait) [
    | inl e ↦ rw (e, execute_wait_step) (inl refl)
    | inr (a, e) ↦ rw (e, execute_wait_step) (inl refl)
  ]

  Leads-dispatch :
      (par each : Context → Fields → M (Option Err)) (ctx : Context) (context : Fields)
      → Leads (dispatch go ext i par each ctx context)
  unfolding dispatch
  Leads-dispatch par each ctx context =
      if-both Leads (i.type == "condition") (Leads-condition context) (
        if-both Leads (i.type == "action") (Leads-action context) (
          if-both Leads (i.type == "execute") (Leads-execute context) (
            if-both Leads (i.type == "parallel") (λ w. inr (inr (inr refl)))
              (if-both Leads (i.type == "foreach") (λ w. inr (inr (inr refl)))
                (if-both Leads (i.type == "wait") Leads-wait (λ w. inl refl))))))

  Leads-if_created :
      (failure : Option Err) (rest : M StepOutcome)
      → Leads rest
      → Leads (if_created go ext failure rest)
  unfolding if_created
  Leads-if_created none rest h w = h w
  Leads-if_created (some e) rest h w = inl refl

  Leads-recorded :
      (context : Fields) (body : M StepOutcome)
      → Leads body
      → Leads (recorded go ext i context body)
  unfolding recorded
  Leads-recorded context body h w =
      let s = started_record i w.execution context (ext.new_id w.calls) (ext.now (suc w.calls)) in
      Leads-if_created _ (run_and_update go ext s body) (λ v. unfold run_and_update in h v) _

  Leads-after_failure :
      (c : CtxErr) (e : Err) (again : M StepOutcome)
      → Leads again
      → Leads (after_failure go ext i c e again)
  unfolding after_failure
  Leads-after_failure deadline_exceeded e again h w = inl refl
  Leads-after_failure _ e again h w = if-both Leads (gives_up i.retry e) (λ v. inl refl) h w

  Leads-attempt_ended :
      (ctx : Context) (o : StepOutcome) (again : Err → M StepOutcome) (e : Option Err)
      → Follows i o.next
      → ((e : Err) → Leads (again e))
      → Leads (attempt_ended go ext i ctx o again e)
  unfolding attempt_ended
  Leads-attempt_ended ctx o again none f h w = f
  Leads-attempt_ended ctx o again (some e) f h w =
      Leads-after_failure (ext.ctx_err ctx w.calls) e (again e) (h e) _

  Leads-attempts :
      (run : M StepOutcome) (ctx : Context)
      → Leads run
      → (left attempt : ℕ) (last : Err) → Leads (attempts go ext i run ctx left attempt last)
  unfolding attempts
  Leads-attempts run ctx h zero attempt last w = inl refl
  Leads-attempts run ctx h (suc left) attempt last w =
      let w' = (back_off go ext attempt i.retry w).1 in
      Leads-attempt_ended ctx (run w').0 (attempts go ext i run ctx left (suc attempt)) _ (h w')
        (Leads-attempts run ctx h left (suc attempt)) _

execute_step-Leads :
    (go : Go) (ext : Ext) (s : Step) (ctx : Context) (context : Fields)
    → Leads go ext (info s) (execute_step go ext s ctx context)
unfolding execute_step
execute_step-Leads go ext (step i p f) ctx context =
    Leads-recorded go ext i context
      (dispatch go ext i (execute_parallel_step go ext p) (execute_foreach_step go ext f) ctx
        context)
      (Leads-dispatch go ext i (execute_parallel_step go ext p) (execute_foreach_step go ext f) ctx
        context)

-- A step leads nowhere, or to one of the three steps that it names.
pub execute_step_with_retry-Follows :
    (go : Go) (ext : Ext) (s : Step) (ctx : Context) (context : Fields) (w : World)
    → Follows (info s) (execute_step_with_retry go ext s ctx context w).0.next
unfolding execute_step_with_retry
execute_step_with_retry-Follows go ext s ctx context w =
    let (ctx', w') = step_context go ext (info s) ctx w in
    Leads-attempts go ext (info s) (execute_step go ext s ctx' context) ctx'
      (execute_step-Leads go ext s ctx' context) (max_attempts (info s).retry) 1 (msg "") w'
