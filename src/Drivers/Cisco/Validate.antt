-- ===== src/Drivers/Cisco/Validate.antt =====
-- drivers/cisco_iosxe.py: what is wrong with a change, before it is rendered.
pub mod Accepted
pub mod Sent
pub mod Smuggled
use terraformer.Base.{
  ℕ, ◌+◌, Bool, true, false, not, ◌&&◌, ◌||◌, Option, none, some, List, [], ◌∷◌, ◌++◌, leb, ltb,
  ◌==◌, if◌then◌else◌, length, is_empty, all, find,
}
use terraformer.Text.{
  Text, codes, is_some, is_letter, is_digit, is_printable, strip, lower, same, collapse,
}
use terraformer.Models.{
  ChangeType, interface_description, interface_admin_state, vlan_name, interface_access_vlan,
  interface_trunk_vlans, router_network, router_network_remove, router_rip_version, bgp_neighbor,
}
use terraformer.Models
use terraformer.Ipv4.{address}
use terraformer.Changes.{
  ChangeStepIntent, Issue, domain_lookup_unknown, description_too_long, description_not_printable,
  description_empty, admin_state_unknown, hostname_too_long, hostname_malformed, vlan_name_too_long,
  vlan_name_empty, vlan_name_malformed, vlan_id_not_number, vlan_id_out_of_range, vlan_id_reserved,
  vlan_missing, switchport_missing, switchport_mode_unknown, next_hop_empty, next_hop_malformed,
  statement_present, statement_absent, process_missing, rip_target_unknown, rip_version_present,
  other_bgp_process,
}
use terraformer.Changes.Vlans.{ℤ, pos, negsuc, int, vlan_list_issues, vlan_id_min, vlan_id_max}
use terraformer.Changes.Prefixes.{prefix_issues}
use terraformer.Changes.Routing.{
  routing_process_issues, network_statement_issues, bgp_process, bgp_process_issues,
  bgp_neighbor_issues, rip_version_issues,
}
use terraformer.Drivers.Facts.{
  SwitchportFacts, RoutingProcessFacts, ChangeContext, has_statement, find_statement, vlan,
  routing_process, switchport_of,
}
use terraformer.Drivers.Cisco.Batch.{network_statement}
use terraformer.Drivers.Cisco.Ports.{mode_command, vlan_at}

-- A run of characters to the end, or to a last newline, which `$` allows.
rest_fits : (ℕ → Bool) → Text → Bool
rest_fits p [] = true
rest_fits p (c ∷ s) = if p c then rest_fits p s else c == 10 && is_empty s

-- `^[A-Za-z]…*$`.
unfoldable pub word_fits : (ℕ → Bool) → Text → Bool
unfolding rest_fits is_letter
word_fits p [] = false
word_fits p (c ∷ s) = is_letter c && rest_fits p s

abbrev pub hostname_char : ℕ → Bool
hostname_char c = is_letter c || is_digit c || c == b'-'

abbrev pub next_hop_char : ℕ → Bool
next_hop_char c =
    is_letter c || is_digit c || c == b'.' || c == b'/' || c == b':' || c == b'_' || c == b'-'

abbrev pub vlan_name_char : ℕ → Bool
vlan_name_char c = is_letter c || is_digit c || c == b'_' || c == b'-'

abbrev pub when : Bool → Issue → List Issue
when b issue = if b then issue ∷ [] else []

unfoldable pub validate_hostname : Text → List Issue
unfolding word_fits is_digit
validate_hostname name =
    when (ltb 63 (length name)) hostname_too_long
    ++ when (not (word_fits hostname_char name)) hostname_malformed

unfoldable pub vlan_id_issues : Text → List Issue
unfolding int
vlan_id_issues raw = elim (int raw) [
  | none ↦ vlan_id_not_number ∷ []
  | some (negsuc n) ↦ vlan_id_out_of_range ∷ []
  | some (pos n) ↦
      if not (leb vlan_id_min n && leb n vlan_id_max)
      then vlan_id_out_of_range ∷ []
      else if leb 1002 n && leb n 1005
      then vlan_id_reserved n ∷ []
      else []
]

unfoldable pub validate_vlan_name : Text → Text → List Issue
unfolding vlan_id_issues strip is_letter is_digit
validate_vlan_name target name =
    vlan_id_issues target
    ++ (when (ltb 32 (length name)) vlan_name_too_long
        ++ (if is_empty (strip name)
            then vlan_name_empty ∷ []
            else when (not (not (is_empty name) && all vlan_name_char name)) vlan_name_malformed))

abbrev vlan_of : ChangeContext → Option ℤ → Bool
vlan_of context none = true
vlan_of context (some id) = is_some (vlan_at context id)

abbrev or_else : List Issue → List Issue → List Issue
or_else [] later = later
or_else (i ∷ is) later = i ∷ is

unfoldable pub validate_access_vlan : Text → ChangeContext → List Issue
unfolding vlan_id_issues int vlan_at
validate_access_vlan desired context = or_else (vlan_id_issues desired) (
    when (not (is_empty context.vlans) && not (vlan_of context (int desired)))
      (vlan_missing desired))

trunk_port_issues : Text → Option SwitchportFacts → List Issue
trunk_port_issues target none = switchport_missing target ∷ []
trunk_port_issues target (some port) = elim (mode_command port.mode) [
  | none ↦ switchport_mode_unknown target port.mode ∷ []
  | some line ↦ []
]

unfoldable pub validate_trunk_vlans : Text → Text → ChangeContext → List Issue
unfolding vlan_list_issues trunk_port_issues mode_command switchport_of
validate_trunk_vlans target desired context =
    or_else (vlan_list_issues desired) (trunk_port_issues target (switchport_of context target))

pub is_ipv4 : Text → Bool
is_ipv4 s = elim (address s) [ none ↦ false | some n ↦ true ]

unfoldable pub validate_static_route : Text → Text → List Issue
unfolding prefix_issues is_ipv4 word_fits strip is_digit address
validate_static_route target desired =
    let next_hop = strip desired in
    prefix_issues target
    ++ (if is_empty next_hop
        then next_hop_empty ∷ []
        else when (not (is_ipv4 next_hop) && not (word_fits next_hop_char next_hop))
            next_hop_malformed)

abbrev holds : Option RoutingProcessFacts → Text → Bool
holds none statement = false
holds (some p) statement = has_statement p statement

unfoldable pub validate_router_network : Text → Text → ChangeContext → List Issue
unfolding routing_process_issues network_statement_issues network_statement routing_process
    has_statement strip
validate_router_network target desired context = or_else (routing_process_issues target) (
    or_else (network_statement_issues target desired) (
      when (holds (routing_process context (strip target)) (network_statement desired))
        (statement_present (strip target) (network_statement desired))))

absent_issues : Text → Text → Option RoutingProcessFacts → List Issue
absent_issues process statement none = process_missing process ∷ []
absent_issues process statement (some existing) =
    when (not (has_statement existing statement)) (statement_absent process statement)

unfoldable pub validate_router_network_remove : Text → Text → ChangeContext → List Issue
unfolding routing_process_issues network_statement_issues absent_issues network_statement
    routing_process has_statement strip
validate_router_network_remove target desired context = or_else (routing_process_issues target) (
    or_else (network_statement_issues target desired) (
      absent_issues (strip target) (network_statement desired)
        (routing_process context (strip target))))

version_issues : Text → Option Text → List Issue
version_issues wanted none = []
version_issues wanted (some current) = when (same current wanted) (rip_version_present current)

abbrev version_of : Option RoutingProcessFacts → Option Text
version_of none = none
version_of (some rip) = find_statement rip (codes "version ")

unfoldable pub validate_rip_version : Text → Text → ChangeContext → List Issue
unfolding rip_version_issues version_issues routing_process find_statement strip lower same
validate_rip_version target desired context =
    if not (same (lower (strip target)) (codes "rip"))
    then rip_target_unknown ∷ []
    else or_else (rip_version_issues desired) (
        version_issues (codes "version " ++ strip desired)
          (version_of (routing_process context (codes "rip"))))

is_bgp : RoutingProcessFacts → Bool
is_bgp process = elim (bgp_process (lower process.name)) [ none ↦ false | some asn ↦ true ]

-- The first BGP process that runs.
unfoldable pub running_bgp : ChangeContext → Option RoutingProcessFacts
unfolding is_bgp bgp_process lower
running_bgp context = find is_bgp context.routing_processes

bgp_running_issues : Text → Text → Option RoutingProcessFacts → List Issue
bgp_running_issues process statement none = []
bgp_running_issues process statement (some running) =
    if not (same (lower running.name) process)
    then other_bgp_process running.name ∷ []
    else when (has_statement running statement) (statement_present process statement)

unfoldable pub validate_bgp_neighbor : Text → Text → ChangeContext → List Issue
unfolding bgp_process_issues bgp_neighbor_issues bgp_running_issues running_bgp has_statement
    collapse strip lower same
validate_bgp_neighbor target desired context = or_else (bgp_process_issues target) (
    or_else (bgp_neighbor_issues desired) (
      bgp_running_issues (lower (strip target)) (codes "neighbor " ++ collapse desired)
        (running_bgp context)))

unfoldable pub validate_description : Text → List Issue
unfolding is_printable strip
validate_description desired =
    when (ltb 240 (length desired)) description_too_long
    ++ (if not (all is_printable desired)
        then description_not_printable ∷ []
        else when (is_empty (strip desired)) description_empty)

-- The desired value is one of two words.
abbrev pub either_word : Text → Text → Text → Issue → List Issue
either_word desired a b issue = when (not (same desired a || same desired b)) issue

abbrev pub validate_type : ChangeType → Text → Text → ChangeContext → List Issue
validate_type Models.hostname target desired context = validate_hostname desired
validate_type Models.domain_lookup target desired context =
    either_word desired (codes "on") (codes "off") domain_lookup_unknown
validate_type vlan_name target desired context = validate_vlan_name target desired
validate_type interface_access_vlan target desired context = validate_access_vlan desired context
validate_type interface_trunk_vlans target desired context =
    validate_trunk_vlans target desired context
validate_type Models.static_route target desired context = validate_static_route target desired
validate_type router_network target desired context = validate_router_network target desired context
validate_type router_network_remove target desired context =
    validate_router_network_remove target desired context
validate_type router_rip_version target desired context =
    validate_rip_version target desired context
validate_type bgp_neighbor target desired context = validate_bgp_neighbor target desired context
validate_type interface_description target desired context = validate_description desired
validate_type interface_admin_state target desired context =
    either_word desired (codes "up") (codes "down") admin_state_unknown

-- `CiscoIOSXEDriver.validate_change`.
unfoldable pub validate_change : ChangeStepIntent → ChangeContext → List Issue
unfolding validate_hostname validate_vlan_name validate_access_vlan validate_trunk_vlans
    validate_static_route validate_router_network validate_router_network_remove
    validate_rip_version validate_bgp_neighbor validate_description same
validate_change step context = validate_type step.change_type step.target step.desired_value context
