-- ===== src/Drivers/Cisco/Render/OneLine.antt =====
-- Every line that a renderer produces is one command, for a value, a target and facts of single lines.
use terraformer.Base.{All}
use terraformer.Text.{Text, strip}
use terraformer.Text.Lines.{IsLine}
use terraformer.Models.{
  ChangeType, interface_description, interface_admin_state, vlan_name, interface_access_vlan,
  interface_trunk_vlans, router_network, router_network_remove, router_rip_version, bgp_neighbor,
}
use terraformer.Models
use terraformer.Changes.{ChangeStepIntent}
use terraformer.Drivers.Facts.{ChangeContext, switchport_of}
use terraformer.Drivers.Cisco.Render.{render_type, render_change}
use terraformer.Drivers.Cisco.Render.Commands.{OneLine, Given, find-Given}
use terraformer.Drivers.Cisco.Render.VlanLines.{
  hostname-OneLine, domain_lookup-OneLine, vlan_name-OneLine, access_vlan-OneLine,
}
use terraformer.Drivers.Cisco.Render.PortLines.{
  trunk_vlans-OneLine, description-OneLine, admin_state-OneLine,
}
use terraformer.Drivers.Cisco.Render.RouteLines.{
  CleanRoute, static_route-OneLine, router_network-OneLine, router_network_remove-OneLine,
  rip_version-OneLine, bgp_neighbor-OneLine,
}

-- The texts that were read of a device, where a renderer puts them into a command, are single lines.
pub record CleanContext (context : ChangeContext) : Type 0 where
  pub hostname : Given IsLine context.hostname
  pub description : Given (λ i. Given IsLine i.description) context.interface
  pub vlans : All (λ v. IsLine v.name) context.vlans
  pub allowed : All (λ p. Given IsLine p.trunk_allowed) context.switchports
  pub routes : All CleanRoute context.static_routes

-- The part of the desired value that a renderer copies into a command is a single line.
abbrev pub ValueLine : ChangeType → Text → Type 0
ValueLine Models.hostname desired = IsLine desired
ValueLine vlan_name desired = IsLine desired
ValueLine Models.static_route desired = IsLine desired
ValueLine interface_description desired = IsLine desired
ValueLine interface_trunk_vlans desired = IsLine (strip desired)
ValueLine router_rip_version desired = IsLine (strip desired)
ValueLine _ desired = Unit

type-OneLine :
    (type : ChangeType) (target desired : Text) (context : ChangeContext)
    → IsLine target
    → ValueLine type desired
    → CleanContext context
    → OneLine (render_type type target desired context)
unfolding switchport_of
type-OneLine Models.hostname target desired context t d c = hostname-OneLine desired _ d c.hostname
type-OneLine Models.domain_lookup target desired context t d c = domain_lookup-OneLine desired _
type-OneLine vlan_name target desired context t d c =
    vlan_name-OneLine target desired context d c.vlans
type-OneLine interface_access_vlan target desired context t d c =
    access_vlan-OneLine target desired context t
type-OneLine interface_trunk_vlans target desired context t d c =
    trunk_vlans-OneLine target desired _ t d
      (find-Given (λ p. Given IsLine p.trunk_allowed) _ context.switchports c.allowed)
type-OneLine Models.static_route target desired context t d c =
    static_route-OneLine target desired context d c.routes
type-OneLine router_network target desired context t d c =
    router_network-OneLine target desired context t
type-OneLine router_network_remove target desired context t d c =
    router_network_remove-OneLine target desired t
type-OneLine router_rip_version target desired context t d c = rip_version-OneLine desired _ d
type-OneLine bgp_neighbor target desired context t d c =
    bgp_neighbor-OneLine target desired context t
type-OneLine interface_description target desired context t d c =
    description-OneLine target desired _ t d c.description
type-OneLine interface_admin_state target desired context t d c =
    admin_state-OneLine target desired _ t

-- Over a target, a copied part of the value and facts that are single lines, every command of a
-- change that is rendered, and every command that undoes it, is one line and not empty.
pub render_change-OneLine :
    (step : ChangeStepIntent) (context : ChangeContext)
    → IsLine step.target
    → ValueLine step.change_type step.desired_value
    → CleanContext context
    → OneLine (render_change step context)
unfolding render_change
render_change-OneLine step context t d c =
    type-OneLine step.change_type step.target step.desired_value context t d c
