-- ===== src/Drivers/Cisco/Ports.antt =====
-- drivers/cisco_iosxe.py: the commands of the changes to a port, the VLAN database and the device.
use terraformer.Base.{
  Bool, false, not, ◌&&◌, ◌||◌, Option, none, some, List, [], ◌∷◌, ◌++◌, if◌then◌else◌, is_empty,
}
use terraformer.Text.{Text, codes, strip, upper, same, decimal}
use terraformer.Changes.Vlans.{ℤ, pos, negsuc, int}
use terraformer.Drivers.Facts.{
  InterfaceFacts, VlanFacts, SwitchportFacts, ChangeContext, is_trunk, access_vlan_of, vlan,
}
use terraformer.Drivers.Cisco.Batch.{Rendered, unsupported, value_error, batch, int_text, text_or}

unfoldable pub render_domain_lookup : Text → Option Bool → Rendered
unfolding same
render_domain_lookup desired none = unsupported
render_domain_lookup desired (some current) =
    batch
      ((if same desired (codes "on") then codes "ip domain-lookup" else codes "no ip domain-lookup")
        ∷ [])
      ((if current then codes "ip domain-lookup" else codes "no ip domain-lookup") ∷ [])

unfoldable pub render_hostname : Text → Option Text → Rendered
render_hostname desired none = unsupported
render_hostname desired (some previous) =
    if is_empty previous
    then unsupported
    else batch ((codes "hostname " ++ desired) ∷ []) ((codes "hostname " ++ previous) ∷ [])

unfoldable pub vlan_inverse : ℤ → Option VlanFacts → List Text
unfolding int_text
vlan_inverse id none = (codes "no vlan " ++ int_text id) ∷ []
vlan_inverse id (some existing) =
    (codes "vlan " ++ int_text id) ∷ (codes "name " ++ existing.name) ∷ []

-- `context.vlan` at an integer: no VLAN has a negative id.
unfoldable pub vlan_at : ChangeContext → ℤ → Option VlanFacts
unfolding vlan
vlan_at context (pos n) = vlan context n
vlan_at context (negsuc n) = none

unfoldable pub render_vlan_name : Text → Text → ChangeContext → Rendered
unfolding vlan_inverse int vlan_at
render_vlan_name target desired context = elim (int target) [
  | none ↦ value_error
  | some id ↦
      batch ((codes "vlan " ++ int_text id) ∷ (codes "name " ++ desired) ∷ [])
        (vlan_inverse id (vlan_at context id))
]

abbrev interface_line : Text → Text
interface_line target = codes "interface " ++ target

unfoldable pub access_inverse : Text → Option VlanFacts → List Text
unfolding decimal
access_inverse target none = interface_line target ∷ codes "no switchport access vlan" ∷ []
access_inverse target (some previous) =
    interface_line target ∷ (codes "switchport access vlan " ++ decimal previous.vlan_id) ∷ []

unfoldable pub render_access_vlan : Text → Text → ChangeContext → Rendered
unfolding access_inverse int int_text access_vlan_of
render_access_vlan target desired context = elim (int desired) [
  | none ↦ value_error
  | some id ↦
      batch
        (interface_line target
          ∷ codes "switchport mode access"
          ∷ (codes "switchport access vlan " ++ int_text id)
          ∷ [])
        (access_inverse target (access_vlan_of context target))
]

-- `_MODE_COMMANDS`: the command that restores a reported mode.
unfoldable pub mode_command : Text → Option Text
unfolding same
mode_command mode =
    if same mode (codes "trunk")
    then some (codes "switchport mode trunk")
    else if same mode (codes "static access")
    then some (codes "switchport mode access")
    else if same mode (codes "dynamic auto")
    then some (codes "switchport mode dynamic auto")
    else if same mode (codes "dynamic desirable")
    then some (codes "switchport mode dynamic desirable")
    else none

abbrev equals : Option Text → Text → Bool
equals none s = false
equals (some r) s = same r s

unfoldable pub trunk_commands : Text → Text → SwitchportFacts → List Text
unfolding is_trunk strip same
trunk_commands target desired port =
    interface_line target
    ∷ ((if not (is_trunk port) && equals port.trunk_encapsulation (codes "negotiate")
          then codes "switchport trunk encapsulation dot1q" ∷ []
          else [])
        ++ ((if is_trunk port then [] else codes "switchport mode trunk" ∷ [])
            ++ (codes "switchport trunk allowed vlan " ++ strip desired) ∷ []))

-- The line that restores the allowed list.
unfoldable pub allowed_inverse : Text → Text
unfolding upper same
allowed_inverse previous =
    if not (is_empty previous)
      && not (same (upper previous) (codes "ALL") || same (upper previous) (codes "NONE"))
    then codes "switchport trunk allowed vlan " ++ previous
    else codes "no switchport trunk allowed vlan"

unfoldable pub trunk_inverse : Text → Text → SwitchportFacts → List Text
unfolding allowed_inverse is_trunk strip
trunk_inverse target mode_line port =
    interface_line target
    ∷ allowed_inverse (strip (text_or port.trunk_allowed []))
    ∷ (if is_trunk port then [] else mode_line ∷ [])

unfoldable pub render_trunk_vlans : Text → Text → Option SwitchportFacts → Rendered
unfolding mode_command trunk_commands trunk_inverse
render_trunk_vlans target desired none = unsupported
render_trunk_vlans target desired (some port) = elim (mode_command port.mode) [
  | none ↦ unsupported
  | some line ↦ batch (trunk_commands target desired port) (trunk_inverse target line port)
]

-- `f"description {value}"` where there is one, and the negation where not.
unfoldable pub description_inverse : Option Text → Text
description_inverse none = codes "no description"
description_inverse (some []) = codes "no description"
description_inverse (some (c ∷ s)) = codes "description " ++ (c ∷ s)

abbrev pub bool_of : Option Bool → Bool
bool_of none = false
bool_of (some b) = b

abbrev shutdown_line : Bool → Text
shutdown_line up = if up then codes "no shutdown" else codes "shutdown"

unfoldable pub render_description : Text → Text → Option InterfaceFacts → Rendered
unfolding description_inverse
render_description target desired none = unsupported
render_description target desired (some current) =
    batch (interface_line target ∷ (codes "description " ++ desired) ∷ [])
      (interface_line target ∷ description_inverse current.description ∷ [])

unfoldable pub render_admin_state : Text → Text → Option InterfaceFacts → Rendered
unfolding same
render_admin_state target desired none = unsupported
render_admin_state target desired (some current) =
    batch (interface_line target ∷ shutdown_line (same desired (codes "up")) ∷ [])
      (interface_line target ∷ shutdown_line (bool_of current.admin_up) ∷ [])
