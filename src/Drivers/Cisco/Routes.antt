-- ===== src/Drivers/Cisco/Routes.antt =====
-- drivers/cisco_iosxe.py: the commands of the changes to routes and routing processes.
use terraformer.Base.{Option, none, some, [], ◌∷◌, ◌++◌}
use terraformer.Text.{Text, codes, strip, lower, collapse}
use terraformer.Changes.Prefixes.{prefix_parts}
use terraformer.Drivers.Facts.{
  StaticRouteFacts, RoutingProcessFacts, ChangeContext, as_command, find_statement, static_route,
  routing_process,
}
use terraformer.Drivers.Cisco.Batch.{
  Rendered, value_error, batch, network_statement, peer_address, text_or,
}

unfoldable pub route_line : Text × Text → Text → Text
route_line parts hop =
    codes "ip route " ++ (parts.0 ++ (codes " " ++ (parts.1 ++ (codes " " ++ hop))))

unfoldable pub route_batch : Text → Option StaticRouteFacts → Rendered
unfolding as_command
route_batch added none = batch (added ∷ []) ((codes "no " ++ added) ∷ [])
route_batch added (some existing) =
    batch ((codes "no " ++ as_command existing) ∷ added ∷ [])
      ((codes "no " ++ added) ∷ as_command existing ∷ [])

unfoldable pub render_static_route : Text → Text → ChangeContext → Rendered
unfolding route_line route_batch prefix_parts static_route
render_static_route target desired context = elim (prefix_parts target) [
  | none ↦ value_error
  | some parts ↦ route_batch (route_line parts desired) (static_route context parts.0 parts.1)
]

abbrev pub router_line : Text → Text
router_line process = codes "router " ++ process

unfoldable pub render_router_network : Text → Text → ChangeContext → Rendered
unfolding network_statement routing_process strip
render_router_network target desired context =
    let process = strip target in
    let statement = network_statement desired in
    elim (routing_process context process) [
      | none ↦ batch (router_line process ∷ statement ∷ []) ((codes "no router " ++ process) ∷ [])
      | some existing ↦
          batch (router_line process ∷ statement ∷ [])
            (router_line process ∷ (codes "no " ++ statement) ∷ [])
    ]

unfoldable pub render_router_network_remove : Text → Text → Rendered
unfolding network_statement strip
render_router_network_remove target desired =
    let process = strip target in
    let statement = network_statement desired in
    batch (router_line process ∷ (codes "no " ++ statement) ∷ [])
      (router_line process ∷ statement ∷ [])

unfoldable pub render_rip_version : Text → Option RoutingProcessFacts → Rendered
unfolding strip find_statement
render_rip_version desired none =
    batch (codes "router rip" ∷ (codes "version " ++ strip desired) ∷ [])
      (codes "no router rip" ∷ [])
render_rip_version desired (some existing) =
    batch (codes "router rip" ∷ (codes "version " ++ strip desired) ∷ []) (
      codes "router rip"
      ∷ text_or (find_statement existing (codes "version ")) (codes "no version")
      ∷ [])

-- A BGP process that runs: a new peer, or a peer that moves to another AS.
unfoldable pub bgp_batch : Text → Text → Text → Option Text → Rendered
bgp_batch process peer statement none =
    batch (router_line process ∷ statement ∷ [])
      (router_line process ∷ (codes "no neighbor " ++ peer) ∷ [])
bgp_batch process peer statement (some previous) =
    batch (router_line process ∷ (codes "no neighbor " ++ peer) ∷ statement ∷ [])
      (router_line process ∷ (codes "no neighbor " ++ peer) ∷ previous ∷ [])

unfoldable pub render_bgp_neighbor : Text → Text → ChangeContext → Rendered
unfolding bgp_batch strip lower peer_address collapse routing_process find_statement
render_bgp_neighbor target desired context =
    let process = lower (strip target) in
    let peer = peer_address desired in
    let statement = codes "neighbor " ++ collapse desired in
    elim (routing_process context process) [
      | none ↦ batch (router_line process ∷ statement ∷ []) ((codes "no router " ++ process) ∷ [])
      | some existing ↦
          bgp_batch process peer statement
            (find_statement existing (codes "neighbor " ++ (peer ++ codes " remote-as ")))
    ]
