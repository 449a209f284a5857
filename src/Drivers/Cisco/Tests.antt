-- ===== src/Drivers/Cisco/Tests.antt =====
-- Examples of batches: a VLAN that is renamed, a next hop behind a newline, and a network statement.
use terraformer.Base.{◌≡◌, refl, none, some, [], ◌∷◌}
use terraformer.Text.{
  Text, codes, is_break, join, splitlines, strip, split_on, is_digits, number, decimal, same,
}
use terraformer.Text.Lines.{IsLine, IsCommand, newline}
use terraformer.Text.Ends.{no_breaks}
use terraformer.Models.{vlan_name}
use terraformer.Changes.{ChangeStepIntent, RenderedChange}
use terraformer.Changes.Prefixes.{prefix_parts}
use terraformer.Drivers.Facts.{ChangeContext, RoutingProcessFacts, static_route, routing_process}
use terraformer.Drivers.Cisco.Batch.{rendered}
use terraformer.Drivers.Cisco.Routes.{
  route_line, render_static_route, render_router_network, render_router_network_remove,
}
use terraformer.Drivers.Cisco.Render.{render_change}
use terraformer.Drivers.Cisco.Render.Commands.{OneLine, literal}
use terraformer.Drivers.Cisco.Render.OneLine.{CleanContext, render_change-OneLine}
use terraformer.Drivers.Cisco.Render.Inverse.{swapped, remove-undoes-add}
use terraformer.Drivers.Cisco.Parsers.{parse_static_routes, parse_routing_processes}
use terraformer.Drivers.Cisco.Parsers.Processes.{IsProcess, lines_of, parse-lines_of}
use terraformer.Drivers.Cisco.Tables.{parse_show_vlan_brief, parse_show_interfaces_switchport}
use terraformer.Drivers.Cisco.Tables.Clean.{parsed-CleanContext}
use terraformer.Drivers.Cisco.Validate.{validate_change, validate_static_route}
use terraformer.Drivers.Cisco.Validate.Sent.{accepted_is_sent}
use terraformer.Drivers.Cisco.Validate.Smuggled.{static_route-newline}

abbrev switch_read : ChangeContext
switch_read = record {
  interface = none;
  vlans = record { vlan_id = 10; name = codes "USERS"; status = codes "active"; ports = [] } ∷ [];
  switchports = [];
  static_routes = [];
  routing_processes =
      record { name = codes "ospf 1"; statements = codes "network 10.0.0.0 0.0.0.255 area 0" ∷ [] }
      ∷ [];
  hostname = none;
  domain_lookup = none;
}

switch_read-CleanContext : CleanContext switch_read
unfolding is_break
switch_read-CleanContext = record {
  hostname = tt;
  description = tt;
  vlans = (no_breaks (codes "USERS") refl, tt);
  allowed = tt;
  routes = tt;
}

abbrev naming : ChangeStepIntent
naming = record { change_type = vlan_name; target = codes "10"; desired_value = codes "STAFF" }

abbrev naming_batches : RenderedChange
naming_batches = record {
  commands = codes "vlan 10" ∷ codes "name STAFF" ∷ [];
  inverse_commands = codes "vlan 10" ∷ codes "name USERS" ∷ [];
}

naming_target : IsLine (codes "10")
unfolding is_break
naming_target = no_breaks (codes "10") refl

naming_value : IsLine (codes "STAFF")
unfolding is_break
naming_value = no_breaks (codes "STAFF") refl

naming_valid : validate_change naming switch_read ≡ []
unfolding validate_change
naming_valid = refl

naming_renders : render_change naming switch_read ≡ rendered naming_batches
unfolding render_change
naming_renders = refl

render_change-OneLine_example : OneLine (render_change naming switch_read)
render_change-OneLine_example =
    render_change-OneLine naming switch_read naming_target naming_value switch_read-CleanContext

accepted_is_sent_example :
    (splitlines (join newline naming_batches.commands) ≡ naming_batches.commands)
    × (splitlines (join newline naming_batches.inverse_commands) ≡ naming_batches.inverse_commands)
accepted_is_sent_example =
    accepted_is_sent naming switch_read naming_batches naming_target switch_read-CleanContext tt
      naming_valid naming_renders

abbrev reload : Text
reload = codes "reload"

reload-IsCommand : IsCommand reload
unfolding is_break
reload-IsCommand = literal (codes "reload") refl refl

reload_valid : validate_static_route (codes "10.1.0.0/16") reload ≡ []
unfolding validate_static_route split_on is_digits number
reload_valid = refl

abbrev prefix_text : Text × Text
prefix_text = (codes "10.1.0.0", codes "255.255.0.0")

prefix_lem : prefix_parts (codes "10.1.0.0/16") ≡ some prefix_text
unfolding prefix_parts split_on is_digits number join decimal
prefix_lem = refl

absent_lem : static_route switch_read prefix_text.0 prefix_text.1 ≡ none
unfolding static_route
absent_lem = refl

static_route-newline_example :
    (validate_static_route (codes "10.1.0.0/16") (10 ∷ reload) ≡ [])
    × ((change : RenderedChange) × ((render_static_route
              (codes "10.1.0.0/16")
              (10 ∷ reload)
              switch_read
            ≡ rendered change)
          × (splitlines (join newline change.commands) ≡ route_line prefix_text [] ∷ reload ∷ [])))
static_route-newline_example =
    static_route-newline (codes "10.1.0.0/16") reload switch_read prefix_text reload-IsCommand
      reload_valid prefix_lem absent_lem

abbrev ospf : RoutingProcessFacts
ospf = record { name = codes "ospf 1"; statements = codes "network 10.0.0.0 0.0.0.255 area 0" ∷ [] }

ospf_lem : routing_process switch_read (codes "ospf 1") ≡ some ospf
unfolding routing_process
ospf_lem = refl

ospf_stripped : routing_process switch_read (strip (codes "ospf 1")) ≡ some ospf
unfolding strip
ospf_stripped = ospf_lem

remove-undoes-add_example :
    render_router_network (codes "ospf 1") (codes "10.1.0.0 0.0.0.255 area 0") switch_read
    ≡ swapped (render_router_network_remove (codes "ospf 1") (codes "10.1.0.0 0.0.0.255 area 0"))
remove-undoes-add_example =
    remove-undoes-add (codes "ospf 1") (codes "10.1.0.0 0.0.0.255 area 0") switch_read ospf
      ospf_stripped

-- What a switch prints.
abbrev vlan_table : Text
vlan_table =
    codes
      "VLAN Name    Status    Ports\n---- ------- --------- -----\n10   USERS   active    Gi1/0/1, Gi1/0/2\n                       Gi1/0/3\n"

vlan_table_lem :
    parse_show_vlan_brief vlan_table
    ≡ record {
      vlan_id = 10;
      name = codes "USERS";
      status = codes "active";
      ports = codes "Gi1/0/1" ∷ codes "Gi1/0/2" ∷ codes "Gi1/0/3" ∷ [];
    }
      ∷ []
unfolding parse_show_vlan_brief
vlan_table_lem = refl

abbrev port_table : Text
port_table =
    codes
      "Name: Gi1/0/1\nAdministrative Mode: trunk\nTrunking VLANs Enabled: 10,20,\n  30\nAccess Mode VLAN: 1 (default)\n"

port_table_lem :
    parse_show_interfaces_switchport port_table
    ≡ record {
      name = codes "Gi1/0/1";
      mode = codes "trunk";
      access_vlan = some 1;
      native_vlan = none;
      trunk_allowed = some (codes "10,20,30");
      trunk_encapsulation = none;
    }
      ∷ []
unfolding parse_show_interfaces_switchport
port_table_lem = refl

abbrev route_table : Text
route_table =
    codes
      "ip route 10.1.0.0 255.255.0.0 10.0.0.1 200\nip route vrf A 10.2.0.0 255.255.0.0 10.0.0.1\n"

route_table_lem :
    parse_static_routes route_table
    ≡ record {
      destination = codes "10.1.0.0";
      mask = codes "255.255.0.0";
      next_hop = codes "10.0.0.1";
      raw = codes "ip route 10.1.0.0 255.255.0.0 10.0.0.1 200";
    }
      ∷ []
unfolding parse_static_routes
route_table_lem = refl

abbrev tables_read : ChangeContext
tables_read = record {
  interface = none;
  vlans = parse_show_vlan_brief vlan_table;
  switchports = parse_show_interfaces_switchport port_table;
  static_routes = parse_static_routes route_table;
  routing_processes = [];
  hostname = none;
  domain_lookup = none;
}

parsed-CleanContext_example : CleanContext tables_read
parsed-CleanContext_example =
    parsed-CleanContext tables_read vlan_table port_table route_table tt tt refl refl refl

ospf-IsProcess : IsProcess ospf
unfolding is_break strip same
ospf-IsProcess = (
  (no_breaks (codes "ospf 1") refl, refl),
  (((no_breaks (codes "network 10.0.0.0 0.0.0.255 area 0") refl, refl), refl), tt),
)

parse-lines_of_example : parse_routing_processes (join newline (lines_of (ospf ∷ []))) ≡ ospf ∷ []
parse-lines_of_example = parse-lines_of (ospf ∷ []) (ospf-IsProcess, tt)
