-- ===== src/Drivers/Cisco/Render/Inverse.antt =====
-- A network statement that is added and one that is removed undo each other.
use terraformer.Base.{◌≡◌, refl, some}
use terraformer.Text.{Text, strip}
use terraformer.Drivers.Facts.{RoutingProcessFacts, ChangeContext, routing_process}
use terraformer.Drivers.Cisco.Batch.{Rendered, rendered, batch}
use terraformer.Drivers.Cisco.Routes.{render_router_network, render_router_network_remove}

-- The same two batches, each in the other's place.
abbrev pub swapped : Rendered → Rendered
swapped (rendered change) = batch change.inverse_commands change.commands
swapped other = other

-- Over a process that runs, adding a statement is the removal with its two batches exchanged: the
-- commands of each are those that undo the other.
pub remove-undoes-add :
    (target desired : Text) (context : ChangeContext) (process : RoutingProcessFacts)
    → routing_process context (strip target) ≡ some process
    → render_router_network target desired context
      ≡ swapped (render_router_network_remove target desired)
unfolding render_router_network render_router_network_remove
remove-undoes-add target desired context process h = rw (h, render_router_network) refl
