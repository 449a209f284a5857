-- ===== src/Pipeline/Checks/Tests.antt =====
-- An example of a description that is padded: the device takes it and shows it without the blank.
use terraformer.Base.{◌≡◌, ◌≢◌, refl, ap, subst, true, some, List, [], ◌∷◌, ◌⊎◌, All}
use terraformer.Text.{codes, strip, splitlines}
use terraformer.Text.Strip.{IsTrimmed}
use terraformer.Models.{interface_description, draft, rolled_back, rollback_failed}
use terraformer.Drivers.Facts.{InterfaceFacts}
use terraformer.Drivers.Cisco.Render.Commands.{Given}
use terraformer.Pipeline.{ChangeStep, Outcome, returned, raised, Env, World, ◌>>=◌, with_connection}
use terraformer.Pipeline.Reads.{Reads}
use terraformer.Pipeline.Apply.{apply, send_and_read}
use terraformer.Pipeline.Apply.Tests.{answering, plan_of_steps, world_of}
use terraformer.Pipeline.Apply.Step.{Ends}
use terraformer.Pipeline.Apply.Start.{begun}
use terraformer.Pipeline.Apply.Padded.{ReadsTrimmed, padded_never_applied}

abbrev port : InterfaceFacts
port = record {
  name = codes "Gi1/0/1";
  description = some (codes "uplink");
  admin_up = some true;
  oper_up = some true;
}

abbrev trimming : Env
trimming = record answering { get_interfaces = λ n. returned (port ∷ []) }

abbrev padding : ChangeStep
padding = record {
  change_type = interface_description;
  target = codes "Gi1/0/1";
  previous_value = some (codes "old");
  desired_value = codes "uplink ";
  rendered_commands = codes "interface Gi1/0/1\ndescription uplink ";
  inverse_commands = codes "interface Gi1/0/1\ndescription old";
}

abbrev padding_draft : World
padding_draft = world_of (plan_of_steps draft (padding ∷ []))

padded_lem : strip (codes "uplink ") ≢ codes "uplink "
unfolding strip
padded_lem e = cc e

port-IsTrimmed : IsTrimmed (codes "uplink")
unfolding strip
port-IsTrimmed = refl

interfaces_of : Outcome Reads → List InterfaceFacts
interfaces_of (returned reads) = reads.interfaces
interfaces_of (raised e) = []

trimming-ReadsTrimmed : ReadsTrimmed trimming padding (begun padding_draft)
unfolding with_connection send_and_read ◌>>=◌ interfaces_of
trimming-ReadsTrimmed reads e =
    subst (All (λ (i : InterfaceFacts). Given IsTrimmed i.description)) (ap interfaces_of e)
      (port-IsTrimmed, tt)

abbrev padding_done : World
padding_done = (apply trimming padding_draft).1

rolled_back_lem : apply trimming padding_draft ≡ (returned rolled_back, padding_done)
unfolding apply ◌>>=◌ splitlines
rolled_back_lem = refl

padded_never_applied_example :
    ((rolled_back ≡ rolled_back) ⊎ (rolled_back ≡ rollback_failed))
    × Ends padding padding_draft.sent padding_done
padded_never_applied_example =
    padded_never_applied trimming padding_draft padding_done padding rolled_back refl refl refl
      padded_lem trimming-ReadsTrimmed rolled_back_lem
