-- ===== src/Pipeline/Checks.antt =====
-- changes/service.py: what a change type reads, whether a change is in place, and the value before.
pub mod Padded
pub mod Tests
use terraformer.Base.{Bool, true, false, not, ◌&&◌, Option, none, some, [], ◌∷◌, ◌++◌, ◌==◌}
use terraformer.Text.{Text, codes, strip, lower, same, collapse, decimal}
use terraformer.Models.{
  ChangeType, interface_description, interface_admin_state, vlan_name, interface_access_vlan,
  interface_trunk_vlans, router_network, router_network_remove, router_rip_version, bgp_neighbor,
}
use terraformer.Models
use terraformer.Changes.Vlans.{ℤ, pos, int, expand_vlan_list, same_set}
use terraformer.Changes.Prefixes.{prefix_parts}
use terraformer.Drivers.Facts.{
  InterfaceFacts, VlanFacts, SwitchportFacts, StaticRouteFacts, RoutingProcessFacts, ChangeContext,
  is_trunk, has_statement, find_statement, access_vlan_of, static_route, routing_process,
  switchport_of,
}
use terraformer.Drivers.Cisco.Batch.{network_statement, text_or}
use terraformer.Drivers.Cisco.Ports.{vlan_at}

abbrev pub needs_vlans : ChangeType → Bool
needs_vlans vlan_name = true
needs_vlans interface_access_vlan = true
needs_vlans _ = false

abbrev pub needs_switchports : ChangeType → Bool
needs_switchports interface_trunk_vlans = true
needs_switchports _ = false

abbrev pub needs_static_routes : ChangeType → Bool
needs_static_routes Models.static_route = true
needs_static_routes _ = false

abbrev pub needs_routing_processes : ChangeType → Bool
needs_routing_processes router_network = true
needs_routing_processes router_network_remove = true
needs_routing_processes router_rip_version = true
needs_routing_processes bgp_neighbor = true
needs_routing_processes _ = false

abbrev pub targets_interface : ChangeType → Bool
targets_interface interface_description = true
targets_interface interface_admin_state = true
targets_interface interface_access_vlan = true
targets_interface interface_trunk_vlans = true
targets_interface _ = false

abbrev pub needs_hostname : ChangeType → Bool
needs_hostname Models.hostname = true
needs_hostname _ = false

abbrev pub needs_domain_lookup : ChangeType → Bool
needs_domain_lookup Models.domain_lookup = true
needs_domain_lookup _ = false

abbrev pub text_is : Option Text → Text → Bool
text_is none s = false
text_is (some r) s = same r s

abbrev beq : Bool → Bool → Bool
beq true b = b
beq false b = not b

-- A flag that was read and has this value; `None` equals neither.
abbrev flag_is : Option Bool → Bool → Bool
flag_is none b = false
flag_is (some a) b = beq a b

abbrev vlan_named : Option VlanFacts → Text → Bool
vlan_named none name = false
vlan_named (some v) name = same v.name name

abbrev vlan_is : Option VlanFacts → ℤ → Bool
vlan_is (some v) (pos n) = v.vlan_id == n
vlan_is _ _ = false

unfoldable pub trunk_carries : Option SwitchportFacts → Text → Bool
unfolding is_trunk same_set expand_vlan_list
trunk_carries none desired = false
trunk_carries (some port) desired =
    is_trunk port
    && same_set (expand_vlan_list (text_or port.trunk_allowed [])) (expand_vlan_list desired)

abbrev route_via : Option StaticRouteFacts → Text → Bool
route_via none hop = false
route_via (some r) hop = same r.next_hop hop

abbrev process_has : Option RoutingProcessFacts → Text → Bool
process_has none statement = false
process_has (some p) statement = has_statement p statement

abbrev version_is : Option RoutingProcessFacts → Text → Bool
version_is none line = false
version_is (some p) line = text_is (find_statement p (codes "version ")) line

abbrev described : Option InterfaceFacts → Text → Bool
described none text = false
described (some i) text = text_is i.description text

abbrev admin_is : Option InterfaceFacts → Bool → Bool
admin_is none up = false
admin_is (some i) up = flag_is i.admin_up up

-- `_post_check_ok`; `none` is the ValueError of a target or value that does not parse.
unfoldable pub post_check_ok : ChangeType → Text → Text → ChangeContext → Option Bool
unfolding int vlan_at access_vlan_of trunk_carries switchport_of prefix_parts static_route strip
    routing_process has_statement network_statement find_statement collapse lower same
post_check_ok Models.hostname target desired context = some (text_is context.hostname desired)
post_check_ok Models.domain_lookup target desired context =
    some (flag_is context.domain_lookup (same desired (codes "on")))
post_check_ok vlan_name target desired context = elim (int target) [
  | none ↦ none
  | some id ↦ some (vlan_named (vlan_at context id) desired)
]
post_check_ok interface_access_vlan target desired context = elim (access_vlan_of context target) [
  | none ↦ some false
  | some assigned ↦ elim (int desired) [ none ↦ none | some id ↦ some (vlan_is (some assigned) id) ]
]
post_check_ok interface_trunk_vlans target desired context =
    some (trunk_carries (switchport_of context target) desired)
post_check_ok Models.static_route target desired context = elim (prefix_parts target) [
  | none ↦ none
  | some parts ↦ some (route_via (static_route context parts.0 parts.1) (strip desired))
]
post_check_ok router_network target desired context =
    some (process_has (routing_process context target) (network_statement desired))
post_check_ok router_network_remove target desired context =
    some (not (process_has (routing_process context target) (network_statement desired)))
post_check_ok router_rip_version target desired context =
    some (version_is (routing_process context (codes "rip")) (codes "version " ++ strip desired))
post_check_ok bgp_neighbor target desired context =
    some
      (process_has (routing_process context target) (codes "neighbor " ++ lower (collapse desired)))
post_check_ok interface_description target desired context =
    some (described context.interface desired)
post_check_ok interface_admin_state target desired context =
    some (admin_is context.interface (same desired (codes "up")))

abbrev name_of : Option VlanFacts → Option Text
name_of none = none
name_of (some v) = some v.name

abbrev id_of : Option VlanFacts → Option Text
id_of none = none
id_of (some v) = some (decimal v.vlan_id)

-- `port.trunk_allowed or "ALL"`.
abbrev allowed_or_all : Option Text → Text
allowed_or_all none = codes "ALL"
allowed_or_all (some []) = codes "ALL"
allowed_or_all (some (c ∷ s)) = c ∷ s

abbrev allowed_of : Option SwitchportFacts → Option Text
allowed_of none = none
allowed_of (some port) = some (allowed_or_all port.trunk_allowed)

abbrev hop_of : Option StaticRouteFacts → Option Text
hop_of none = none
hop_of (some r) = some r.next_hop

abbrev process_name : Option RoutingProcessFacts → Option Text
process_name none = none
process_name (some p) = some p.name

abbrev version_line : Option RoutingProcessFacts → Option Text
version_line none = none
version_line (some p) = find_statement p (codes "version ")

abbrev description_of : Option InterfaceFacts → Option Text
description_of none = none
description_of (some i) = i.description

abbrev admin_text : Option Bool → Text
admin_text (some true) = codes "up"
admin_text _ = codes "down"

abbrev state_of : Option InterfaceFacts → Option Text
state_of none = none
state_of (some i) = some (admin_text i.admin_up)

-- `_previous_value`; the outer `none` is a ValueError.
unfoldable pub previous_value : ChangeType → Text → ChangeContext → Option (Option Text)
unfolding int vlan_at access_vlan_of decimal switchport_of prefix_parts static_route routing_process
    find_statement
previous_value vlan_name target context = elim (int target) [
  | none ↦ none
  | some id ↦ some (name_of (vlan_at context id))
]
previous_value interface_access_vlan target context = some (id_of (access_vlan_of context target))
previous_value interface_trunk_vlans target context =
    some (allowed_of (switchport_of context target))
previous_value Models.static_route target context = elim (prefix_parts target) [
  | none ↦ none
  | some parts ↦ some (hop_of (static_route context parts.0 parts.1))
]
previous_value router_network target context = some (process_name (routing_process context target))
previous_value router_network_remove target context =
    some (process_name (routing_process context target))
previous_value router_rip_version target context =
    some (version_line (routing_process context (codes "rip")))
previous_value bgp_neighbor target context = some (process_name (routing_process context target))
previous_value interface_description target context = some (description_of context.interface)
previous_value interface_admin_state target context = some (state_of context.interface)
previous_value Models.hostname target context = some (state_of context.interface)
previous_value Models.domain_lookup target context = some (state_of context.interface)
