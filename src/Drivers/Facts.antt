-- ===== src/Drivers/Facts.antt =====
-- drivers/base.py: the facts of a device that a change is rendered and validated against.
pub mod Laws
pub mod Spelling
pub mod Found
pub mod Tests
use terraformer.Base.{
  ℕ, Bool, true, false, ◌&&◌, Option, none, some, List, [], ◌∷◌, ◌++◌, ◌==◌, if◌then◌else◌, any,
  find,
}
use terraformer.Text.{Text, codes, same, starts_with}
use terraformer.Changes.Interfaces.{same_interface}
use terraformer.Changes.Routing.{normalize_statement}

pub record InterfaceFacts : Type 0 where
  pub name : Text
  pub description : Option Text
  pub admin_up : Option Bool
  pub oper_up : Option Bool

pub record VlanFacts : Type 0 where
  pub vlan_id : ℕ
  pub name : Text
  pub status : Text
  pub ports : List Text

pub record SwitchportFacts : Type 0 where
  pub name : Text
  pub mode : Text
  pub access_vlan : Option ℕ
  pub native_vlan : Option ℕ
  pub trunk_allowed : Option Text
  pub trunk_encapsulation : Option Text

unfoldable pub is_trunk : SwitchportFacts → Bool
unfolding same
is_trunk port = same port.mode (codes "trunk")

pub record StaticRouteFacts : Type 0 where
  pub destination : Text
  pub mask : Text
  pub next_hop : Text
  pub raw : Text

abbrev or_text : Text → Text → Text
or_text [] s = s
or_text (c ∷ r) s = c ∷ r

unfoldable pub as_command : StaticRouteFacts → Text
as_command route = or_text route.raw (
    codes "ip route "
    ++ (route.destination ++ (codes " " ++ (route.mask ++ (codes " " ++ route.next_hop)))))

pub record RoutingProcessFacts : Type 0 where
  pub name : Text
  pub statements : List Text

-- Two lines are the same statement: equal once normalised.
unfoldable pub same_statement : Text → Text → Bool
unfolding normalize_statement same
same_statement line statement = same (normalize_statement line) (normalize_statement statement)

unfoldable pub has_statement : RoutingProcessFacts → Text → Bool
unfolding same_statement
has_statement process statement = any (λ line. same_statement line statement) process.statements

first_with : Text → List Text → Option Text
first_with wanted [] = none
first_with wanted (line ∷ lines) =
    if starts_with wanted (normalize_statement line)
    then some (normalize_statement line)
    else first_with wanted lines

unfoldable pub find_statement : RoutingProcessFacts → Text → Option Text
unfolding first_with normalize_statement starts_with
find_statement process prefix = first_with (normalize_statement prefix) process.statements

pub record ChangeContext : Type 0 where
  pub interface : Option InterfaceFacts
  pub vlans : List VlanFacts
  pub switchports : List SwitchportFacts
  pub static_routes : List StaticRouteFacts
  pub routing_processes : List RoutingProcessFacts
  pub hostname : Option Text
  pub domain_lookup : Option Bool

unfoldable pub access_vlan_of : ChangeContext → Text → Option VlanFacts
unfolding same_interface
access_vlan_of context name =
    find (λ v. any (λ port. same_interface port name) v.ports) context.vlans

unfoldable pub vlan : ChangeContext → ℕ → Option VlanFacts
vlan context id = find (λ v. v.vlan_id == id) context.vlans

unfoldable pub static_route : ChangeContext → Text → Text → Option StaticRouteFacts
unfolding same
static_route context destination mask =
    find (λ r. same r.destination destination && same r.mask mask) context.static_routes

unfoldable pub routing_process : ChangeContext → Text → Option RoutingProcessFacts
unfolding same_statement
routing_process context name = find (λ p. same_statement p.name name) context.routing_processes

unfoldable pub switchport_of : ChangeContext → Text → Option SwitchportFacts
unfolding same_interface
switchport_of context name = find (λ p. same_interface p.name name) context.switchports
