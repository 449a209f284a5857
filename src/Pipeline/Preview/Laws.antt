-- ===== src/Pipeline/Preview/Laws.antt =====
-- `preview` as a whole: what it stores and what it leaves alone.
use terraformer.Base.{
  ℕ, ◌≡◌, refl, ap, ◌∙◌, Bool, true, false, Option, none, some, List, [], ◌∷◌, ◌++◌,
}
use terraformer.Text.{Text}
use terraformer.Models.{SafetyLevel, draft}
use terraformer.Changes.{RenderedChange, Issue}
use terraformer.Drivers.Facts.{ChangeContext}
use terraformer.Drivers.Cisco.Batch.{Rendered, rendered, unsupported, value_error}
use terraformer.Drivers.Cisco.Render.{render_change}
use terraformer.Drivers.Cisco.Validate.{validate_change}
use terraformer.Pipeline.{
  ChangePlan, Device, Capture, captured, capture_failed, Outcome, returned, raised, Env, World,
  Exec, continue, ◌>>=◌, raise, capture, set_snapshots, committed,
}
use terraformer.Pipeline.Checks.{previous_value}
use terraformer.Pipeline.Frames.{Keeps, Keeps-ask, Keeps-with_connection, read_device-Keeps}
use terraformer.Pipeline.Preview.{
  Request, create, add_step, step_of, plan_of, insert, store, store_rendered, store_valid,
  store_present, read_and_store, preview,
}

-- The rows that a preview adds to, and what was handed to the driver.
abbrev touched : World → List ChangePlan × List (List Text)
touched w = (w.plans, w.sent)

capture-Keeps : (env : Env) → Keeps touched (capture env)
unfolding capture committed
capture-Keeps env = record { at = λ w. go w (env.capture w.clock) refl }
  where
    go : (w : World) (c : Capture) → env.capture w.clock ≡ c → touched (capture env w).1 ≡ touched w
    go w (captured id) e = rw e refl
    go w (capture_failed x true) e = rw e refl
    go w (capture_failed x false) e = rw e refl

-- What a preview that returns has stored: one more plan, a draft whose only step holds the commands
-- that were rendered for the request, over facts against which the request was valid.
pub record Previewed (request : Request) (w : World) (plan : ChangePlan) (v : World) : Type 0 where
  pub added : v.plans ≡ w.plans ++ plan ∷ []
  pub saved : v.saved_plans ≡ v.plans
  pub nothing_sent : v.sent ≡ w.sent
  pub is_new : plan.status ≡ draft
  pub context : ChangeContext
  pub change : RenderedChange
  pub previous : Option Text
  pub valid : validate_change request.intent context ≡ []
  pub renders : render_change request.intent context ≡ rendered change
  pub known : previous_value request.change_type request.target context ≡ some previous
  pub one_step : plan.steps ≡ step_of request previous change ∷ []

abbrev pub PreviewEnds : Request → World → Outcome ChangePlan × World → Type 0
PreviewEnds request w (returned plan, v) = Previewed request w plan v
PreviewEnds request w (raised e, v) = (v.plans ≡ w.plans) × (v.sent ≡ w.sent)

module _ (env : Env) (request : Request) (w : World) where
  untouched : (v : World) → touched v ≡ touched w → (v.plans ≡ w.plans) × (v.sent ≡ w.sent)
  untouched v h = (
    ap (λ (q : List ChangePlan × List (List Text)). q.0) h,
    ap (λ (q : List ChangePlan × List (List Text)). q.1) h,
  )

  -- Behind an action that keeps the rows, what the rest ends in.
  after :
      {A : Type 0} (m : Exec A) (g : A → Exec ChangePlan) (u : World)
      → touched u ≡ touched w
      → Keeps touched m
      → ((a : A) (v : World) → touched v ≡ touched w → PreviewEnds request w (g a v))
      → PreviewEnds request w ((m >>= g) u)
  unfolding ◌>>=◌
  after {A = A} m g u h k rest = go (m u) (k.at u ∙ h)
    where
      go :
          (p : Outcome A × World)
          → touched p.1 ≡ touched w
          → PreviewEnds request w (continue p.0 g p.1)
      go (returned a, v) e = rest a v e
      go (raised x, v) e = untouched v e

  insert-PreviewEnds :
      (device : Device) (level : SafetyLevel) (context : ChangeContext) (change : RenderedChange)
      (id : ℕ) (p : Option (Option Text)) (v : World)
      → touched v ≡ touched w
      → validate_change request.intent context ≡ []
      → render_change request.intent context ≡ rendered change
      → previous_value request.change_type request.target context ≡ p
      → PreviewEnds request w (insert request device level context change id p v)
  unfolding insert ◌>>=◌ plan_of create add_step set_snapshots
  insert-PreviewEnds device level context change id none v h valid renders known = untouched v h
  insert-PreviewEnds device level context change id (some previous) v h valid renders known =
      record {
        added =
            ap
              (λ (q : List ChangePlan × List (List Text)).
                q.0 ++ plan_of request device level context id previous change ∷ [])
              h;
        saved = refl;
        nothing_sent = ap (λ (q : List ChangePlan × List (List Text)). q.1) h;
        is_new = refl;
        context = context;
        change = change;
        previous = previous;
        valid = valid;
        renders = renders;
        known = known;
        one_step = refl;
      }

  rendered-PreviewEnds :
      (device : Device) (level : SafetyLevel) (context : ChangeContext) (r : Rendered) (v : World)
      → touched v ≡ touched w
      → validate_change request.intent context ≡ []
      → render_change request.intent context ≡ r
      → PreviewEnds request w (store_rendered env request device level context r v)
  unfolding store_rendered store raise
  rendered-PreviewEnds device level context (rendered change) v h valid renders =
      after (capture env) _ v h (capture-Keeps env)
        λ id u k. insert-PreviewEnds device level context change id _ u k valid renders refl
  rendered-PreviewEnds device level context unsupported v h valid renders = untouched v h
  rendered-PreviewEnds device level context value_error v h valid renders = untouched v h

  valid-PreviewEnds :
      (device : Device) (level : SafetyLevel) (context : ChangeContext) (issues : List Issue)
      (v : World)
      → touched v ≡ touched w
      → validate_change request.intent context ≡ issues
      → PreviewEnds request w (store_valid env request device level context issues v)
  unfolding store_valid raise
  valid-PreviewEnds device level context [] v h valid =
      rendered-PreviewEnds device level context _ v h valid refl
  valid-PreviewEnds device level context (issue ∷ issues) v h valid = untouched v h

  present-PreviewEnds :
      (device : Device) (level : SafetyLevel) (context : ChangeContext) (absent : Bool) (v : World)
      → touched v ≡ touched w
      → PreviewEnds request w (store_present env request device level context absent v)
  unfolding store_present raise
  present-PreviewEnds device level context true v h = untouched v h
  present-PreviewEnds device level context false v h =
      valid-PreviewEnds device level context _ v h refl

  read-PreviewEnds :
      (device : Device) (supported : Bool) (v : World)
      → touched v ≡ touched w
      → PreviewEnds request w (read_and_store env request device supported v)
  unfolding read_and_store raise
  read-PreviewEnds device false v h = untouched v h
  read-PreviewEnds device true v h =
      after _ _ v h (record { at = λ u. refl })
        λ level u k.
          after _ _ u k
            (Keeps-with_connection touched (λ x n. refl) env _
              (read_device-Keeps touched (λ x n. refl) env request.change_type))
            λ reads x l. present-PreviewEnds device level _ _ x l

  -- A preview hands nothing to the driver. If it raises, it adds no plan; if it returns, it has saved
  -- one more plan, a draft of one step, whose commands are what was rendered for the request over
  -- facts against which the request is valid.
  pub preview-PreviewEnds : PreviewEnds request w (preview env request w)
  unfolding preview
  preview-PreviewEnds =
      after _ _ w refl (Keeps-ask touched (λ u n. refl) env.device)
        λ device v h. read-PreviewEnds device _ v h
