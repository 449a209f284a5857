-- ===== src/Drivers/Cisco/Render/VlanLines.antt =====
-- Every line that a renderer of names, VLANs and access ports produces is one command.
use terraformer.Base.{
  ◌+◌, refl, inl, inr, Bool, true, false, Option, none, some, [], ◌∷◌, ◌++◌, All, Option-cases,
  if◌then◌else◌,
}
use terraformer.Text.{Text, codes, is_break}
use terraformer.Text.Lines.{IsLine, IsCommand}
use terraformer.Text.Strip.{decimal-IsLine}
use terraformer.Text.Ends.{no_breaks, line_append}
use terraformer.Changes.Vlans.{ℤ, pos, negsuc, int}
use terraformer.Drivers.Facts.{VlanFacts, ChangeContext, vlan}
use terraformer.Drivers.Cisco.Batch.{int_text}
use terraformer.Drivers.Cisco.Ports.{
  render_domain_lookup, render_hostname, vlan_inverse, vlan_at, render_vlan_name, access_inverse,
  render_access_vlan,
}
use terraformer.Drivers.Cisco.Render.Commands.{
  OneLine, Given, find-Given, command, literal, one, two, three,
}

int_text-IsLine : (i : ℤ) → IsLine (int_text i)
unfolding int_text is_break
int_text-IsLine (pos n) = decimal-IsLine n
int_text-IsLine (negsuc n) =
    line_append (codes "-") _ (no_breaks (codes "-") refl) (decimal-IsLine (n + 1))

pub hostname-OneLine :
    (desired : Text) (current : Option Text)
    → IsLine desired
    → Given IsLine current
    → OneLine (render_hostname desired current)
unfolding render_hostname is_break
hostname-OneLine desired none d h = tt
hostname-OneLine desired (some []) d h = tt
hostname-OneLine desired (some (c ∷ s)) d h = (
  one (command (codes "hostname ") _ refl refl d),
  one (command (codes "hostname ") (c ∷ s) refl refl h),
)

domain_line :
    (b : Bool) → IsCommand (if b then codes "ip domain-lookup" else codes "no ip domain-lookup")
unfolding is_break
domain_line true = literal (codes "ip domain-lookup") refl refl
domain_line false = literal (codes "no ip domain-lookup") refl refl

pub domain_lookup-OneLine :
    (desired : Text) (current : Option Bool) → OneLine (render_domain_lookup desired current)
unfolding render_domain_lookup
domain_lookup-OneLine desired none = tt
domain_lookup-OneLine desired (some b) = (one (domain_line _), one (domain_line b))

vlan_inverse-lines :
    (id : ℤ) (existing : Option VlanFacts)
    → Given (λ v. IsLine v.name) existing
    → All IsCommand (vlan_inverse id existing)
unfolding vlan_inverse is_break
vlan_inverse-lines id none h = (command (codes "no vlan ") _ refl refl (int_text-IsLine id), tt)
vlan_inverse-lines id (some v) h =
    two (command (codes "vlan ") _ refl refl (int_text-IsLine id))
      (command (codes "name ") _ refl refl h)

vlan_at-Given :
    (P : VlanFacts → Type 0) (context : ChangeContext) (id : ℤ)
    → All P context.vlans
    → Given P (vlan_at context id)
unfolding vlan_at vlan
vlan_at-Given P context (pos n) h = find-Given P _ context.vlans h
vlan_at-Given P context (negsuc n) h = tt

pub vlan_name-OneLine :
    (target desired : Text) (context : ChangeContext)
    → IsLine desired
    → All (λ v. IsLine v.name) context.vlans
    → OneLine (render_vlan_name target desired context)
unfolding render_vlan_name is_break
vlan_name-OneLine target desired context d h = elim (Option-cases (int target)) [
  | inl e ↦ rw (e, OneLine) tt
  | inr (id, e) ↦
      rw (e, OneLine)
        ((
          two (command (codes "vlan ") _ refl refl (int_text-IsLine id))
              (command (codes "name ") _ refl refl d),
          vlan_inverse-lines id _ (vlan_at-Given (λ v. IsLine v.name) context id h),
        ))
]

pub interface_command : (target : Text) → IsLine target → IsCommand (codes "interface " ++ target)
unfolding is_break
interface_command target t = command (codes "interface ") target refl refl t

access_inverse-lines :
    (target : Text) (previous : Option VlanFacts)
    → IsLine target
    → All IsCommand (access_inverse target previous)
unfolding access_inverse is_break
access_inverse-lines target none t =
    two (interface_command target t) (literal (codes "no switchport access vlan") refl refl)
access_inverse-lines target (some v) t =
    two (interface_command target t)
      (command (codes "switchport access vlan ") _ refl refl (decimal-IsLine v.vlan_id))

pub access_vlan-OneLine :
    (target desired : Text) (context : ChangeContext)
    → IsLine target
    → OneLine (render_access_vlan target desired context)
unfolding render_access_vlan is_break
access_vlan-OneLine target desired context t = elim (Option-cases (int desired)) [
  | inl e ↦ rw (e, OneLine) tt
  | inr (id, e) ↦
      rw (e, OneLine)
        ((
          three (interface_command target t) (literal (codes "switchport mode access") refl refl)
              (command (codes "switchport access vlan ") _ refl refl (int_text-IsLine id)),
          access_inverse-lines target _ t,
        ))
]
