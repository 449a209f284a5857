-- ===== src/Models.antt =====
-- The enumerations of models/entities.py that the modelled parts use.

pub data Vendor : Type 0 where
  cisco_iosxe fortinet_fortios generic : Vendor

pub data SshCompatibility : Type 0 where
  modern cisco_legacy cisco_legacy_group1 very_old_ssh : SshCompatibility

pub data SafetyLevel : Type 0 where
  read_only best_effort : SafetyLevel

pub data JobType : Type 0 where
  refresh_device capture_config discover_ssh run_diagnostic analyze_network apply_change : JobType

pub data ChangePlanStatus : Type 0 where
  draft applying applied failed rolled_back rollback_failed : ChangePlanStatus

pub data ChangeRisk : Type 0 where
  low high : ChangeRisk

pub data ChangeType : Type 0 where
  interface_description interface_admin_state vlan_name interface_access_vlan : ChangeType
  interface_trunk_vlans static_route router_network router_network_remove : ChangeType
  router_rip_version bgp_neighbor hostname domain_lookup : ChangeType

pub data JobState : Type 0 where
  queued started succeeded failed cancelled : JobState

pub data ChangePlanSource : Type 0 where
  manual ai_generated : ChangePlanSource
