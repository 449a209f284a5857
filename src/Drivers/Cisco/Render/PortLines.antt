-- ===== src/Drivers/Cisco/Render/PortLines.antt =====
-- Every line that a renderer of trunks, descriptions and admin states produces is one command.
use terraformer.Base.{
  ◌≡◌, refl, inl, inr, Bool, true, false, not, ◌&&◌, ◌||◌, Option, none, some, [], ◌∷◌, ◌++◌,
  is_empty, All, Bool-cases, if◌then◌else◌, All-append,
}
use terraformer.Text.{Text, codes, is_break, strip, same, upper}
use terraformer.Text.Lines.{IsLine, IsCommand}
use terraformer.Text.Strip.{strip-All}
use terraformer.Drivers.Facts.{InterfaceFacts, SwitchportFacts, is_trunk}
use terraformer.Drivers.Cisco.Batch.{unsupported, batch, text_or}
use terraformer.Drivers.Cisco.Ports.{
  mode_command, trunk_commands, allowed_inverse, trunk_inverse, render_trunk_vlans,
  description_inverse, render_description, render_admin_state,
}
use terraformer.Drivers.Cisco.Render.Commands.{OneLine, Given, command, literal, one, two}
use terraformer.Drivers.Cisco.Render.VlanLines.{interface_command}

encapsulation_lines :
    (b : Bool) → All IsCommand (if b then codes "switchport trunk encapsulation dot1q" ∷ [] else [])
unfolding is_break
encapsulation_lines true = one (literal (codes "switchport trunk encapsulation dot1q") refl refl)
encapsulation_lines false = tt

mode_lines : (b : Bool) (line : Text) → IsCommand line → All IsCommand (if b then [] else line ∷ [])
mode_lines true line h = tt
mode_lines false line h = one h

mode_commands : (mode : Text) → Given IsCommand (mode_command mode)
unfolding mode_command is_break
mode_commands mode = elim (Bool-cases (same mode (codes "trunk"))) [
  | inl e ↦ rw e (literal (codes "switchport mode trunk") refl refl)
  | inr e ↦ elim (Bool-cases (same mode (codes "static access"))) [
    | inl f ↦ rw (e, f) (literal (codes "switchport mode access") refl refl)
    | inr f ↦ elim (Bool-cases (same mode (codes "dynamic auto"))) [
      | inl g ↦ rw (e, f, g) (literal (codes "switchport mode dynamic auto") refl refl)
      | inr g ↦ elim (Bool-cases (same mode (codes "dynamic desirable"))) [
        | inl h ↦ rw (e, f, g, h) (literal (codes "switchport mode dynamic desirable") refl refl)
        | inr h ↦ rw (e, f, g, h) tt
      ]
    ]
  ]
]

trunk_commands-lines :
    (target desired : Text) (port : SwitchportFacts)
    → IsLine target
    → IsLine (strip desired)
    → All IsCommand (trunk_commands target desired port)
unfolding trunk_commands is_break
trunk_commands-lines target desired port t d = (
  interface_command target t,
  All-append IsCommand _ _ (encapsulation_lines _) (
      All-append IsCommand _ _
        (mode_lines (is_trunk port) (codes "switchport mode trunk")
          (literal (codes "switchport mode trunk") refl refl))
        (one (command (codes "switchport trunk allowed vlan ") _ refl refl d))),
)

allowed_inverse-IsCommand :
    (previous : Text) → IsLine previous → IsCommand (allowed_inverse previous)
unfolding allowed_inverse is_break
allowed_inverse-IsCommand previous h = go (
    not (is_empty previous)
    && not (same (upper previous) (codes "ALL") || same (upper previous) (codes "NONE")))
  where
    go :
        (b : Bool)
        → IsCommand (
            if b
            then codes "switchport trunk allowed vlan " ++ previous
            else codes "no switchport trunk allowed vlan")
    go true = command (codes "switchport trunk allowed vlan ") previous refl refl h
    go false = literal (codes "no switchport trunk allowed vlan") refl refl

text_or-IsLine : (o : Option Text) → Given IsLine o → IsLine (text_or o [])
text_or-IsLine none h = tt
text_or-IsLine (some s) h = h

trunk_batch-OneLine :
    (target desired : Text) (port : SwitchportFacts) (line : Option Text)
    → IsLine target
    → IsLine (strip desired)
    → Given IsLine port.trunk_allowed
    → Given IsCommand line
    → OneLine (elim line [
      | none ↦ unsupported
      | some l ↦ batch (trunk_commands target desired port) (trunk_inverse target l port)
    ])
unfolding trunk_inverse
trunk_batch-OneLine target desired port none t d a l = tt
trunk_batch-OneLine target desired port (some line) t d a l = (
  trunk_commands-lines target desired port t d,
  (
    interface_command target t,
    (
      allowed_inverse-IsCommand _
          (strip-All (λ c. is_break c ≡ false) _ (text_or-IsLine port.trunk_allowed a)),
      mode_lines (is_trunk port) line l,
    ),
  ),
)

pub trunk_vlans-OneLine :
    (target desired : Text) (port : Option SwitchportFacts)
    → IsLine target
    → IsLine (strip desired)
    → Given (λ p. Given IsLine p.trunk_allowed) port
    → OneLine (render_trunk_vlans target desired port)
unfolding render_trunk_vlans
trunk_vlans-OneLine target desired none t d a = tt
trunk_vlans-OneLine target desired (some port) t d a =
    trunk_batch-OneLine target desired port (mode_command port.mode) t d a (mode_commands port.mode)

description_inverse-IsCommand :
    (o : Option Text) → Given IsLine o → IsCommand (description_inverse o)
unfolding description_inverse is_break
description_inverse-IsCommand none h = literal (codes "no description") refl refl
description_inverse-IsCommand (some []) h = literal (codes "no description") refl refl
description_inverse-IsCommand (some (c ∷ s)) h = command (codes "description ") (c ∷ s) refl refl h

pub description-OneLine :
    (target desired : Text) (current : Option InterfaceFacts)
    → IsLine target
    → IsLine desired
    → Given (λ i. Given IsLine i.description) current
    → OneLine (render_description target desired current)
unfolding render_description is_break
description-OneLine target desired none t d h = tt
description-OneLine target desired (some i) t d h = (
  two (interface_command target t) (command (codes "description ") desired refl refl d),
  two (interface_command target t) (description_inverse-IsCommand i.description h),
)

shutdown_line : (b : Bool) → IsCommand (if b then codes "no shutdown" else codes "shutdown")
unfolding is_break
shutdown_line true = literal (codes "no shutdown") refl refl
shutdown_line false = literal (codes "shutdown") refl refl

pub admin_state-OneLine :
    (target desired : Text) (current : Option InterfaceFacts)
    → IsLine target
    → OneLine (render_admin_state target desired current)
unfolding render_admin_state
admin_state-OneLine target desired none t = tt
admin_state-OneLine target desired (some i) t = (
  two (interface_command target t) (shutdown_line _),
  two (interface_command target t) (shutdown_line _),
)
