-- ===== src/Pipeline/Reads.antt =====
-- changes/service.py: what `preview` and `apply` read from the device, each as far as its type needs.
use terraformer.Base.{Bool, Option, none, some, List, [], find}
use terraformer.Text.{Text, same}
use terraformer.Models.{ChangeType}
use terraformer.Drivers.Facts.{
  InterfaceFacts, VlanFacts, SwitchportFacts, StaticRouteFacts, RoutingProcessFacts, ChangeContext,
}
use terraformer.Pipeline.{Env, Outcome, returned, raised, Exec, pure, ask_if, ◌>>=◌}
use terraformer.Pipeline.Checks.{
  needs_vlans, needs_switchports, needs_static_routes, needs_routing_processes, targets_interface,
  needs_hostname, needs_domain_lookup,
}
use terraformer.Base.{ℕ}

abbrev some_of : {A : Type 0} → (ℕ → Outcome A) → ℕ → Outcome (Option A)
some_of answer n = elim (answer n) [ returned a ↦ returned (some a) | raised e ↦ raised e ]

pub record Reads : Type 0 where
  pub interfaces : List InterfaceFacts
  pub hostname : Option Text
  pub domain_lookup : Option Bool
  pub vlans : List VlanFacts
  pub switchports : List SwitchportFacts
  pub static_routes : List StaticRouteFacts
  pub routing_processes : List RoutingProcessFacts

unfoldable pub read_device : Env → ChangeType → Exec Reads
read_device env type = do
  interfaces ← ask_if (targets_interface type) env.get_interfaces []
  hostname ← ask_if (needs_hostname type) env.get_hostname none
  lookup ← ask_if (needs_domain_lookup type) (some_of env.get_domain_lookup) none
  vlans ← ask_if (needs_vlans type) env.get_vlans []
  switchports ← ask_if (needs_switchports type) env.get_switchports []
  routes ← ask_if (needs_static_routes type) env.get_static_routes []
  processes ← ask_if (needs_routing_processes type) env.get_routing_processes []
  pure (record {
    interfaces = interfaces;
    hostname = hostname;
    domain_lookup = lookup;
    vlans = vlans;
    switchports = switchports;
    static_routes = routes;
    routing_processes = processes;
  })

-- The interface that the target names.
unfoldable pub current_interface : Reads → Text → Option InterfaceFacts
unfolding same
current_interface reads target = find (λ i. same i.name target) reads.interfaces

unfoldable pub context_of : Reads → Text → ChangeContext
unfolding current_interface
context_of reads target = record {
  interface = current_interface reads target;
  vlans = reads.vlans;
  switchports = reads.switchports;
  static_routes = reads.static_routes;
  routing_processes = reads.routing_processes;
  hostname = reads.hostname;
  domain_lookup = reads.domain_lookup;
}
