-- ===== src/Changes.antt =====
-- changes/: the value types of the change pipeline, and the messages that its checks produce.
pub mod Interfaces
pub mod Vlans
pub mod Prefixes
pub mod Routing
pub mod Risk
pub mod Tests
use terraformer.Base.{ℕ, List}
use terraformer.Text.{Text}
use terraformer.Models.{ChangeType}

pub record ChangeStepIntent : Type 0 where
  pub change_type : ChangeType
  pub target : Text
  pub desired_value : Text

pub record RenderedChange : Type 0 where
  pub commands : List Text
  pub inverse_commands : List Text

-- One constructor for each message of a check, with what the message quotes of the input.
pub data Issue : Type 0 where
  vlan_list_malformed vlan_list_out_of_range : Issue
  vlan_range_backwards : Text → Issue
  prefix_malformed : Text → Issue
  routing_process_malformed : Issue
  network_shape : Issue
  not_ipv4 : Text → Issue
  local_as_out_of_range bgp_neighbor_malformed remote_as_out_of_range : Issue
  rip_version_unknown : Issue
  domain_lookup_unknown : Issue
  description_too_long description_not_printable description_empty : Issue
  admin_state_unknown : Issue
  hostname_too_long hostname_malformed : Issue
  vlan_name_too_long vlan_name_empty vlan_name_malformed : Issue
  vlan_id_not_number vlan_id_out_of_range : Issue
  vlan_id_reserved : ℕ → Issue
  vlan_missing : Text → Issue
  switchport_missing : Text → Issue
  switchport_mode_unknown : Text → Text → Issue
  next_hop_empty next_hop_malformed : Issue
  statement_present statement_absent : Text → Text → Issue
  process_missing : Text → Issue
  rip_target_unknown : Issue
  rip_version_present : Text → Issue
  other_bgp_process : Text → Issue
