-- ===== src/Pipeline/Apply/Start.antt =====
-- How `apply` starts: it refuses, it finds no device or driver, or it runs the steps of the plan.
use terraformer.Base.{suc, ◌≡◌, ◌⊎◌, inl, inr, false, arith}
use terraformer.Errors.{change_plan_not_draft}
use terraformer.Models.{SafetyLevel, draft, applying}
use terraformer.Pipeline.{
  Device, ChangePlan, Exception, app, returned, raised, Env, World, ◌>>=◌, set_status, committed,
}
use terraformer.Pipeline.Frames.{at_clock}
use terraformer.Pipeline.Apply.{apply_steps, apply_draft, apply, is_draft}
use terraformer.Pipeline.Apply.Attempt.{Outcome-cases}

abbrev pub applying_plan : ChangePlan → ChangePlan
applying_plan plan = record plan { status = applying }

-- The world in which the steps of a draft run: the plan is saved as applying.
abbrev pub begun : World → World
begun w = record w {
  clock = suc (suc w.clock);
  plan = applying_plan w.plan;
  saved_plan = applying_plan w.plan;
  saved_plans = w.plans;
  saved_inventory = w.inventory;
}

-- How `apply` starts: it refuses, it finds no device or driver, or it runs the steps.
module _ (env : Env) (w : World) where
  pub apply_refused :
      (u : Unit {0})
      → env.load w.clock ≡ returned u
      → is_draft w.plan.status ≡ false
      → apply env w ≡ (raised (app change_plan_not_draft), at_clock w (suc w.clock))
  unfolding apply ◌>>=◌
  apply_refused u h d = ground arith

  pub apply_not_loaded :
      (e : Exception)
      → env.load w.clock ≡ raised e
      → apply env w ≡ (raised e, at_clock w (suc w.clock))
  unfolding apply ◌>>=◌
  apply_not_loaded e h = ground arith

  apply_no_device :
      (u : Unit {0}) (e : Exception)
      → env.load w.clock ≡ returned u
      → w.plan.status ≡ draft
      → env.device (suc w.clock) ≡ raised e
      → apply env w ≡ (raised e, begun w)
  unfolding apply apply_draft ◌>>=◌ set_status committed
  apply_no_device u e h d x = ground arith

  apply_no_driver :
      (u : Unit {0}) (d : Device) (e : Exception)
      → env.load w.clock ≡ returned u
      → w.plan.status ≡ draft
      → env.device (suc w.clock) ≡ returned d
      → env.driver d.vendor ≡ raised e
      → apply env w ≡ (raised e, begun w)
  unfolding apply apply_draft ◌>>=◌ set_status committed
  apply_no_driver u d e h k x y = ground arith

  pub apply_runs :
      (u : Unit {0}) (d : Device) (level : SafetyLevel)
      → env.load w.clock ≡ returned u
      → w.plan.status ≡ draft
      → env.device (suc w.clock) ≡ returned d
      → env.driver d.vendor ≡ returned level
      → apply env w ≡ apply_steps env w.plan.steps (begun w)
  unfolding apply apply_draft ◌>>=◌ set_status committed
  apply_runs u d level h k x y = ground arith

  -- A draft that is loaded is saved as applying; then `apply` raises at once or runs the steps.
  pub apply_cases :
      (u : Unit {0})
      → env.load w.clock ≡ returned u
      → w.plan.status ≡ draft
      → ((e : Exception) × (apply env w ≡ (raised e, begun w)))
        ⊎ (apply env w ≡ apply_steps env w.plan.steps (begun w))
  apply_cases u h k = elim (Outcome-cases (env.device (suc w.clock))) [
    | inr (e, x) ↦ inl (e, apply_no_device u e h k x)
    | inl (d, x) ↦ elim (Outcome-cases (env.driver d.vendor)) [
      | inr (e, y) ↦ inl (e, apply_no_driver u d e h k x y)
      | inl (level, y) ↦ inr (apply_runs u d level h k x y)
    ]
  ]
