-- ===== src/Drivers/Cisco/Tables/Clean.antt =====
-- What the parsers of the driver read puts no line end into a command.
use terraformer.Base.{
  ◌≡◌, subst, sym, Bool, true, false, Option, none, some, List, [], ◌∷◌, All, All-concat,
  if◌then◌else◌, is_empty, Bool-cases, inl, inr, all,
}
use terraformer.Text.{Text, codes, is_break, is_space, strip, lstrip, rstrip, splitlines, same}
use terraformer.Text.Lines.{IsLine, is_break-is_space, splitlines-IsLine}
use terraformer.Text.Strip.{strip-All, lstrip-All}
use terraformer.Text.Ends.{line_append}
use terraformer.Text.Numbers.{partition_right-All}
use terraformer.Drivers.Facts.{VlanFacts, SwitchportFacts, ChangeContext}
use terraformer.Drivers.Cisco.Render.Commands.{Given}
use terraformer.Drivers.Cisco.Render.OneLine.{CleanContext}
use terraformer.Drivers.Cisco.Render.RouteLines.{CleanRoute}
use terraformer.Drivers.Cisco.Parsers.{parse_static_routes}
use terraformer.Drivers.Cisco.Parsers.Routes.{parse_static_routes-CleanRoute}
use terraformer.Drivers.Cisco.Tables.{
  dark_run, after_run, vlan_row, with_ports, is_port_char, split_ports, vlan_line, is_heading,
  vlan_lines, parse_show_vlan_brief, Fields, field, field_or_empty, not_empty, Block, port_of,
  with_port, flush, field_line, continued, started_block, labelled, block_line, block_lines,
  parse_show_interfaces_switchport,
}

abbrev NamedLine : VlanFacts → Type 0
NamedLine v = IsLine v.name

dark_run-IsLine : (s : Text) → IsLine (dark_run s)
dark_run-IsLine [] = tt
dark_run-IsLine (c ∷ s) = elim (Bool-cases (is_space c)) [
  | inl e ↦ rw e tt
  | inr e ↦ rw e (is_break-is_space c e, dark_run-IsLine s)
]

row_if : (b : Bool) (v : VlanFacts) → NamedLine v → Given NamedLine (if b then some v else none)
row_if true v h = h
row_if false v h = tt

vlan_row-Named : (line : Text) → Given NamedLine (vlan_row line)
unfolding vlan_row
vlan_row-Named line = row_if _ _ (dark_run-IsLine (lstrip (after_run line)))

with_ports-All :
    (ports : List Text) (vs : List VlanFacts)
    → All NamedLine vs
    → All NamedLine (with_ports ports vs)
with_ports-All ports [] h = tt
with_ports-All ports (v ∷ []) h = (h.0, tt)
with_ports-All ports (v ∷ w ∷ vs) h = (h.0, with_ports-All ports (w ∷ vs) h.1)

either_way : {A : Type 0} (P : A → Type 0) (b : Bool) (x y : A) → P x → P y → P (if b then x else y)
either_way P true x y h k = h
either_way P false x y h k = k

vlan_line-All :
    (row : Option VlanFacts) (stripped : Text) (vlans : List VlanFacts)
    → Given NamedLine row
    → All NamedLine vlans
    → All NamedLine (vlan_line row stripped vlans)
unfolding vlan_line
vlan_line-All none stripped vlans r h =
    either_way (All NamedLine) (all is_port_char stripped) _ _
      (with_ports-All (split_ports stripped) vlans h) h
vlan_line-All (some v) stripped vlans r h = All-concat NamedLine vlans v h r

vlan_lines-All :
    (lines : List Text) (vlans : List VlanFacts)
    → All NamedLine vlans
    → All NamedLine (vlan_lines lines vlans)
unfolding vlan_lines
vlan_lines-All [] vlans h = h
vlan_lines-All (line ∷ lines) vlans h = vlan_lines-All lines _ (
    either_way (All NamedLine) (is_heading (strip line)) _ _ h
      (vlan_line-All (vlan_row (rstrip line)) (strip line) vlans (vlan_row-Named (rstrip line)) h))

parse_show_vlan_brief-All : (output : Text) → All NamedLine (parse_show_vlan_brief output)
unfolding parse_show_vlan_brief
parse_show_vlan_brief-All output = vlan_lines-All (splitlines output) [] tt

abbrev ValueLines : Fields → Type 0
ValueLines = All (λ entry. IsLine entry.1)

field-Given :
    (label : Text) (fields : Fields) → ValueLines fields → Given IsLine (field label fields)
unfolding field
field-Given label [] h = tt
field-Given label (entry ∷ entries) h =
    either_way (Given IsLine) (same entry.0 label) (some entry.1) (field label entries) h.0
      (field-Given label entries h.1)

not_empty-Given : (o : Option Text) → Given IsLine o → Given IsLine (not_empty o)
not_empty-Given none h = tt
not_empty-Given (some []) h = tt
not_empty-Given (some (c ∷ s)) h = h

or_empty-IsLine : (o : Option Text) → Given IsLine o → IsLine (field_or_empty o)
or_empty-IsLine none h = tt
or_empty-IsLine (some s) h = h

abbrev AllowedLine : SwitchportFacts → Type 0
AllowedLine port = Given IsLine port.trunk_allowed

abbrev BlockLines : Block → Type 0
BlockLines b = All AllowedLine b.ports × ValueLines b.fields

flush-All : (b : Block) → BlockLines b → All AllowedLine (flush b)
unfolding flush with_port port_of
flush-All b h = go (not_empty (field (codes "Name") b.fields))
  where
    go : (o : Option Text) → All AllowedLine (with_port o b)
    go none = h.0
    go (some name) =
        All-concat AllowedLine b.ports _ h.0
          (not_empty-Given _ (field-Given (codes "Trunking VLANs Enabled") b.fields h.1))

entry_if :
    (b : Bool) (label value : Text)
    → IsLine value
    → Given (λ (entry : Text × Text). IsLine entry.1) (if b then some (label, value) else none)
entry_if true label value h = h
entry_if false label value h = tt

block_line-BlockLines :
    (o : Option (Text × Text)) (line : Text) (b : Block)
    → IsLine line
    → Given (λ (entry : Text × Text). IsLine entry.1) o
    → BlockLines b
    → BlockLines (block_line o line b)
unfolding block_line
block_line-BlockLines none line b l e h = go b.last_label
  where
    go : (o : Option Text) → BlockLines (continued o line b)
    go none = h
    go (some label) =
        (h.0, (line_append _ line (or_empty-IsLine _ (field-Given label b.fields h.1)) l, h.1))
block_line-BlockLines (some entry) line b l e h = go (same (strip entry.0) (codes "Name"))
  where
    value : IsLine (strip entry.1)
    value = strip-All (λ c. is_break c ≡ false) entry.1 e

    go : (x : Bool) → BlockLines (labelled (strip entry.0) (strip entry.1) (started_block x b))
    go true = (flush-All b h, (value, tt))
    go false = (h.0, (value, h.1))

field_line-Given :
    (line : Text) → IsLine line → Given (λ (entry : Text × Text). IsLine entry.1) (field_line line)
unfolding field_line
field_line-Given line h = entry_if _ _ _ (
    lstrip-All (λ c. is_break c ≡ false) _
      (partition_right-All (λ c. is_break c ≡ false) b':' line h))

block_lines-BlockLines :
    (lines : List Text) (b : Block)
    → All IsLine lines
    → BlockLines b
    → BlockLines (block_lines lines b)
unfolding block_lines
block_lines-BlockLines [] b l h = h
block_lines-BlockLines (raw ∷ lines) b l h =
    let s = strip-All (λ c. is_break c ≡ false) raw l.0 in
    block_lines-BlockLines lines _ l.1 (
      either_way BlockLines (is_empty (strip raw)) _ _ h (
        block_line-BlockLines (field_line (strip raw)) (strip raw) b s
          (field_line-Given (strip raw) s) h))

parse_switchports-All : (output : Text) → All AllowedLine (parse_show_interfaces_switchport output)
unfolding parse_show_interfaces_switchport
parse_switchports-All output =
    flush-All _ (block_lines-BlockLines (splitlines output) _ (splitlines-IsLine output) (tt, tt))

-- Whatever the device prints, the VLANs, switchports and static routes that the parsers read hold only
-- single lines where a renderer puts them into a command; with a host name and a description that are
-- single lines too, nothing that was read can break a command in two.
pub parsed-CleanContext :
    (context : ChangeContext) (vlans ports routes : Text)
    → Given IsLine context.hostname
    → Given (λ i. Given IsLine i.description) context.interface
    → context.vlans ≡ parse_show_vlan_brief vlans
    → context.switchports ≡ parse_show_interfaces_switchport ports
    → context.static_routes ≡ parse_static_routes routes
    → CleanContext context
parsed-CleanContext context vlans ports routes name description v p r = record {
  hostname = name;
  description = description;
  vlans = subst (All NamedLine) (sym v) (parse_show_vlan_brief-All vlans);
  allowed = subst (All AllowedLine) (sym p) (parse_switchports-All ports);
  routes = subst (All CleanRoute) (sym r) (parse_static_routes-CleanRoute routes);
}
