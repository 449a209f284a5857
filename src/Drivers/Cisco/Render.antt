-- ===== src/Drivers/Cisco/Render.antt =====
-- drivers/cisco_iosxe.py: the commands of a change and those that undo it.
pub mod Commands
pub mod VlanLines
pub mod PortLines
pub mod RouteLines
pub mod OneLine
pub mod Inverse
use terraformer.Base.{
  ◌+◌, ℕ, Bool, true, false, not, ◌&&◌, ◌||◌, Option, none, some, List, [], ◌∷◌, ◌++◌,
  if◌then◌else◌, is_empty,
}
use terraformer.Text.{Text, codes, strip, lower, upper, same, collapse, partition, decimal}
use terraformer.Models.{
  ChangeType, interface_description, interface_admin_state, vlan_name, interface_access_vlan,
  interface_trunk_vlans, router_network, router_network_remove, router_rip_version, bgp_neighbor,
}
use terraformer.Models
use terraformer.Changes.{ChangeStepIntent, RenderedChange}
use terraformer.Changes.Vlans.{ℤ, pos, negsuc, int}
use terraformer.Changes.Prefixes.{prefix_parts}
use terraformer.Drivers.Facts.{
  InterfaceFacts, VlanFacts, SwitchportFacts, StaticRouteFacts, RoutingProcessFacts, ChangeContext,
  is_trunk, as_command, find_statement, access_vlan_of, vlan, static_route, routing_process,
  switchport_of,
}
use terraformer.Drivers.Cisco.Batch.{
  Rendered, rendered, unsupported, value_error, batch, network_statement, peer_address, int_text,
  text_or,
}
use terraformer.Drivers.Cisco.Ports.{
  render_domain_lookup, render_hostname, render_vlan_name, render_access_vlan, render_trunk_vlans,
  render_description, render_admin_state,
}
use terraformer.Drivers.Cisco.Routes.{
  render_static_route, render_router_network, render_router_network_remove, render_rip_version,
  render_bgp_neighbor,
}

abbrev render_type : ChangeType → Text → Text → ChangeContext → Rendered
render_type Models.hostname target desired context = render_hostname desired context.hostname
render_type Models.domain_lookup target desired context =
    render_domain_lookup desired context.domain_lookup
render_type vlan_name target desired context = render_vlan_name target desired context
render_type interface_access_vlan target desired context = render_access_vlan target desired context
render_type interface_trunk_vlans target desired context =
    render_trunk_vlans target desired (switchport_of context target)
render_type Models.static_route target desired context = render_static_route target desired context
render_type router_network target desired context = render_router_network target desired context
render_type router_network_remove target desired context =
    render_router_network_remove target desired
render_type router_rip_version target desired context =
    render_rip_version desired (routing_process context (codes "rip"))
render_type bgp_neighbor target desired context = render_bgp_neighbor target desired context
render_type interface_description target desired context =
    render_description target desired context.interface
render_type interface_admin_state target desired context =
    render_admin_state target desired context.interface

-- `CiscoIOSXEDriver.render_change`.
unfoldable pub render_change : ChangeStepIntent → ChangeContext → Rendered
unfolding render_hostname render_domain_lookup render_vlan_name render_access_vlan
    render_trunk_vlans render_static_route render_router_network render_router_network_remove
    render_rip_version render_bgp_neighbor render_description render_admin_state switchport_of
    routing_process
render_change step context = render_type step.change_type step.target step.desired_value context
