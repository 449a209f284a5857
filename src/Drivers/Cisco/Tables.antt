-- ===== src/Drivers/Cisco/Tables.antt =====
-- drivers/cisco_iosxe.py: the parsers of `show vlan brief` and `show interfaces switchport`.
pub mod Clean
use terraformer.Base.{
  ℕ, Bool, true, false, not, ◌&&◌, ◌||◌, ◌==◌, Option, none, some, List, [], ◌∷◌, ◌++◌,
  if◌then◌else◌, is_empty, length, all, leb,
}
use terraformer.Text.{
  Text, codes, is_space, is_digit, is_letter, strip, lstrip, rstrip, lower, splitlines, split_on,
  partition, same, starts_with, is_digits, number,
}
use terraformer.Drivers.Facts.{VlanFacts, SwitchportFacts}

-- `\S+`, as long as it goes, and what is behind it.
abbrev dark_run : Text → Text
dark_run [] = []
dark_run (c ∷ s) = if is_space c then [] else c ∷ dark_run s

abbrev after_run : Text → Text
after_run [] = []
after_run (c ∷ s) = if is_space c then c ∷ s else after_run s

-- `_split_ports`.
trimmed_parts : List Text → List Text
unfolding strip
trimmed_parts [] = []
trimmed_parts (part ∷ parts) =
    let rest = trimmed_parts parts in if is_empty (strip part) then rest else strip part ∷ rest

unfoldable pub split_ports : Text → List Text
unfolding trimmed_parts split_on
split_ports raw = trimmed_parts (split_on b',' raw)

-- `_VLAN_ROW`, of a line without white space at its end: an id, a name and a status, each before white
-- space or the end, and the ports.
unfoldable pub vlan_row : Text → Option VlanFacts
unfolding split_ports lstrip is_digits number
vlan_row line =
    let id = dark_run line in
    let second = lstrip (after_run line) in
    let name = dark_run second in
    let third = lstrip (after_run second) in
    let status = dark_run third in
    if is_digits id && leb (length id) 4 && not (is_empty name) && not (is_empty status)
    then some (record {
      vlan_id = number id;
      name = name;
      status = status;
      ports = split_ports (lstrip (after_run third));
    })
    else none

abbrev is_port_char : ℕ → Bool
is_port_char c =
    is_letter c || is_digit c || c == b'/' || c == b',' || c == b'.' || is_space c || c == b'-'

-- The ports of a continuation line belong to the VLAN above.
abbrev with_ports : List Text → List VlanFacts → List VlanFacts
with_ports ports [] = []
with_ports ports (v ∷ []) = record v { ports = v.ports ++ ports } ∷ []
with_ports ports (v ∷ w ∷ vs) = v ∷ with_ports ports (w ∷ vs)

vlan_line : Option VlanFacts → Text → List VlanFacts → List VlanFacts
unfolding split_ports is_letter is_digit is_space
vlan_line (some v) stripped vlans = vlans ++ v ∷ []
vlan_line none stripped vlans =
    if all is_port_char stripped then with_ports (split_ports stripped) vlans else vlans

abbrev is_heading : Text → Bool
is_heading stripped =
    is_empty stripped
    || starts_with (codes "-") stripped
    || starts_with (codes "vlan ") (lower stripped)

unfoldable pub vlan_lines : List Text → List VlanFacts → List VlanFacts
unfolding vlan_line vlan_row strip rstrip starts_with lower
vlan_lines [] vlans = vlans
vlan_lines (line ∷ lines) vlans = vlan_lines lines (
    if is_heading (strip line)
    then vlans
    else vlan_line (vlan_row (rstrip line)) (strip line) vlans)

unfoldable pub parse_show_vlan_brief : Text → List VlanFacts
unfolding vlan_lines splitlines
parse_show_vlan_brief output = vlan_lines (splitlines output) []

-- A dictionary of labels; the newest entry of a label stands first.
abbrev pub Fields : Type 0
Fields = List (Text × Text)

unfoldable pub field : Text → Fields → Option Text
unfolding same
field label [] = none
field label (entry ∷ entries) = if same entry.0 label then some entry.1 else field label entries

abbrev pub field_or_empty : Option Text → Text
field_or_empty none = []
field_or_empty (some value) = value

-- `fields.get(label) or None`.
abbrev pub not_empty : Option Text → Option Text
not_empty none = none
not_empty (some []) = none
not_empty (some (c ∷ s)) = some (c ∷ s)

abbrev digit_run : Text → Text
digit_run [] = []
digit_run (c ∷ s) = if is_digit c then c ∷ digit_run s else []

abbrev number_of : Text → Option ℕ
number_of [] = none
number_of (c ∷ s) = some (number (c ∷ s))

-- `_leading_vlan_id`.
unfoldable pub leading_vlan_id : Text → Option ℕ
unfolding strip is_digit number
leading_vlan_id value = number_of (digit_run (strip value))

-- The state of `parse_show_interfaces_switchport`.
pub record Block : Type 0 where
  pub ports : List SwitchportFacts
  pub fields : Fields
  pub last_label : Option Text

port_of : Text → Fields → SwitchportFacts
unfolding field leading_vlan_id
port_of name fields = record {
  name = name;
  mode = field_or_empty (field (codes "Administrative Mode") fields);
  access_vlan = leading_vlan_id (field_or_empty (field (codes "Access Mode VLAN") fields));
  native_vlan = leading_vlan_id (field_or_empty (field (codes "Trunking Native Mode VLAN") fields));
  trunk_allowed = not_empty (field (codes "Trunking VLANs Enabled") fields);
  trunk_encapsulation = not_empty (field (codes "Administrative Trunking Encapsulation") fields);
}

with_port : Option Text → Block → List SwitchportFacts
unfolding port_of
with_port none b = b.ports
with_port (some name) b = b.ports ++ port_of name b.fields ∷ []

-- `flush`: the ports, with that of the block, if it has a name.
unfoldable pub flush : Block → List SwitchportFacts
unfolding with_port field
flush b = with_port (not_empty (field (codes "Name") b.fields)) b

abbrev is_label_char : ℕ → Bool
is_label_char c =
    is_letter c
    || is_digit c
    || c == b' '
    || c == b'('
    || c == b')'
    || c == b'.'
    || c == b'/'
    || c == b'-'

abbrev starts_with_letter : Text → Bool
starts_with_letter [] = false
starts_with_letter (c ∷ s) = is_letter c

has_colon : Text → Bool
has_colon [] = false
has_colon (c ∷ s) = c == b':' || has_colon s

-- `_SWITCHPORT_FIELD`: the label, and the value without the white space before it.
unfoldable pub field_line : Text → Option (Text × Text)
unfolding partition lstrip has_colon is_letter is_digit
field_line line =
    let (label, value) = partition b':' line in
    if has_colon line && starts_with_letter label && all is_label_char label
    then some (label, lstrip value)
    else none

abbrev continued : Option Text → Text → Block → Block
continued none line b = b
continued (some label) line b = record b {
  fields = (label, field_or_empty (field label b.fields) ++ line) ∷ b.fields;
}

abbrev started_block : Bool → Block → Block
started_block true b = record b { ports = flush b; fields = [] }
started_block false b = b

abbrev labelled : Text → Text → Block → Block
labelled label value b = record b { fields = (label, value) ∷ b.fields; last_label = some label }

block_line : Option (Text × Text) → Text → Block → Block
unfolding field flush strip same
block_line none line b = continued b.last_label line b
block_line (some entry) line b =
    labelled (strip entry.0) (strip entry.1) (started_block (same (strip entry.0) (codes "Name")) b)

unfoldable pub block_lines : List Text → Block → Block
unfolding block_line field_line strip
block_lines [] b = b
block_lines (raw ∷ lines) b =
    block_lines lines
      (if is_empty (strip raw) then b else block_line (field_line (strip raw)) (strip raw) b)

unfoldable pub parse_show_interfaces_switchport : Text → List SwitchportFacts
unfolding block_lines flush splitlines
parse_show_interfaces_switchport output =
    flush (block_lines (splitlines output) (record { ports = []; fields = []; last_label = none }))
