-- ===== src/Changes/Risk.antt =====
-- changes/risk.py: the risk of one step.
use terraformer.Base.{Bool, true, false, ◌||◌, ◌&&◌, Option, none, some, if◌then◌else◌}
use terraformer.Text.{Text, codes, strip, same, collapse, starts_with}
use terraformer.Models.{
  ChangeType, interface_admin_state, interface_access_vlan, interface_trunk_vlans, static_route,
  router_network, router_network_remove, router_rip_version, bgp_neighbor, hostname, domain_lookup,
  vlan_name, interface_description, ChangeRisk, low, high,
}

-- `flag is True`.
abbrev pub is_true : Option Bool → Bool
is_true (some true) = true
is_true _ = false

abbrev pub risk_if : Bool → ChangeRisk
risk_if b = if b then high else low

unfoldable pub static_route_risk : Text → Option Text → ChangeRisk
unfolding strip same
static_route_risk target previous =
    if same (strip target) (codes "0.0.0.0/0") || same (strip target) (codes "0.0.0.0 0.0.0.0")
    then high
    else elim previous [ none ↦ low | some value ↦ high ]

unfoldable pub router_network_risk : Text → Option Text → ChangeRisk
unfolding collapse starts_with
router_network_risk desired previous =
    if starts_with (codes "0.0.0.0 255.255.255.255") (collapse desired)
    then high
    else elim previous [ none ↦ high | some name ↦ low ]

-- The rules in the order of the source; the last one is shared by the types that no earlier rule
-- decides.
unfoldable pub classify_risk :
    ChangeType → Option Bool → Option Bool → Text → Text → Option Text → ChangeRisk
unfolding static_route_risk router_network_risk same
classify_risk interface_admin_state admin oper desired target previous =
    if same desired (codes "down") then high else risk_if (is_true admin && is_true oper)
classify_risk hostname admin oper desired target previous = low
classify_risk domain_lookup admin oper desired target previous = low
classify_risk vlan_name admin oper desired target previous = low
classify_risk interface_access_vlan admin oper desired target previous =
    if is_true oper then high else risk_if (is_true admin && is_true oper)
classify_risk interface_trunk_vlans admin oper desired target previous =
    if is_true oper then high else risk_if (is_true admin && is_true oper)
classify_risk static_route admin oper desired target previous = static_route_risk target previous
classify_risk router_network admin oper desired target previous =
    router_network_risk desired previous
classify_risk router_network_remove admin oper desired target previous = high
classify_risk router_rip_version admin oper desired target previous = high
classify_risk bgp_neighbor admin oper desired target previous = high
classify_risk interface_description admin oper desired target previous =
    risk_if (is_true admin && is_true oper)
