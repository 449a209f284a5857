-- ===== src/Pipeline/Preview/Shown.antt =====
-- What a preview shows is what `apply` hands to the driver.
use terraformer.Base.{◌≡◌, subst, [], ◌∷◌}
use terraformer.Text.Lines.{IsLine}
use terraformer.Drivers.Cisco.Render.OneLine.{CleanContext}
use terraformer.Drivers.Cisco.Validate.Sent.{Trimmed, accepted_is_sent}
use terraformer.Pipeline.{ChangePlan, ChangeStep, World}
use terraformer.Pipeline.Preview.{Request, step_of}
use terraformer.Pipeline.Preview.Laws.{Previewed}
use terraformer.Pipeline.Apply.Step.{commands_of, inverse_of}

-- Over a target and facts that are single lines, and with a value that is trimmed if it is a host name
-- or a next hop, the only step of a plan that `preview` stored carries to the driver exactly the
-- commands that were rendered, and to a rollback exactly those that undo them.
pub previewed_is_sent :
    (request : Request) (w v : World) (plan : ChangePlan) (p : Previewed request w plan v)
    → IsLine request.target
    → CleanContext p.context
    → Trimmed request.change_type request.desired_value
    → (step : ChangeStep) → plan.steps ≡ step ∷ []
    → (commands_of step ≡ p.change.commands) × (inverse_of step ≡ p.change.inverse_commands)
unfolding step_of
previewed_is_sent request w v plan p t c trim step one =
    let same : step_of request p.previous p.change ≡ step = cc (p.one_step, one) in
    subst
      (λ (s : ChangeStep).
        (commands_of s ≡ p.change.commands) × (inverse_of s ≡ p.change.inverse_commands))
      same (accepted_is_sent request.intent p.context p.change t c trim p.valid p.renders)
