-- ===== src/Drivers/Cisco/Parsers.antt =====
-- drivers/cisco_iosxe.py: the parsers of the routing sections of a running configuration, and what a
-- save acknowledges.
pub mod Processes
pub mod Routes
use terraformer.Base.{
  Bool, true, false, not, ◌&&◌, ◌||◌, ◌==◌, Option, none, some, List, [], ◌∷◌, ◌++◌, if◌then◌else◌,
  is_empty, length, all, any, leb,
}
use terraformer.Text.{
  Text, codes, is_space, is_some, strip, lstrip, splitlines, split_on, partition, same,
  after_prefix, starts_with, contains, is_digits,
}
use terraformer.Drivers.Facts.{RoutingProcessFacts, StaticRouteFacts}

-- The state of `parse_routing_processes`: the blocks that are closed, and the one that is open.
pub record Blocks : Type 0 where
  pub processes : List RoutingProcessFacts
  pub name : Option Text
  pub statements : List Text

-- The open block is closed.
unfoldable pub flush : Blocks → List RoutingProcessFacts
flush b = elim b.name [
  | none ↦ b.processes
  | some name ↦ b.processes ++ record { name = name; statements = b.statements } ∷ []
]

abbrev is_indented : Text → Bool
is_indented [] = false
is_indented (c ∷ s) = is_space c

abbrev is_separator : Text → Bool
is_separator stripped = same stripped [] || same stripped (codes "!")

abbrev closed : List RoutingProcessFacts → Blocks
closed processes = record { processes = processes; name = none; statements = [] }

-- A line that is no header of a block; `open` tells whether one is open.
read_inside : Bool → Text → Blocks → Blocks
unfolding flush same strip
read_inside false raw b = b
read_inside true raw b =
    if is_separator (strip raw)
    then b
    else if is_indented raw
    then record b { statements = b.statements ++ strip raw ∷ [] }
    else closed (flush b)

read_header : Option Text → Text → Blocks → Blocks
unfolding read_inside flush strip
read_header none raw b = read_inside (is_some b.name) raw b
read_header (some rest) raw b = record {
  processes = flush b;
  name = some (strip rest);
  statements = [];
}

-- One line.
unfoldable pub read_line : Text → Blocks → Blocks
unfolding read_header after_prefix
read_line raw b = read_header (after_prefix (codes "router ") raw) raw b

unfoldable pub read_lines : List Text → Blocks → Blocks
unfolding read_line
read_lines [] b = b
read_lines (raw ∷ rest) b = read_lines rest (read_line raw b)

unfoldable pub parse_routing_processes : Text → List RoutingProcessFacts
unfolding read_lines flush splitlines
parse_routing_processes output = flush (read_lines (splitlines output) (closed []))

-- `\d{1,3}(?:\.\d{1,3}){3}`.
abbrev is_group : Text → Bool
is_group s = is_digits s && leb (length s) 3

is_quad : Text → Bool
unfolding split_on is_digits
is_quad s = let groups = split_on b'.' s in length groups == 4 && all is_group groups

-- `\S+`, as long as it goes.
dark_run : Text → Text
dark_run [] = []
dark_run (c ∷ s) = if is_space c then [] else c ∷ dark_run s

-- The rest of a line after `ip route `: a destination and a mask, each before one blank, and a hop.
route_of : Text → Text → Option StaticRouteFacts
unfolding partition is_quad dark_run
route_of line rest =
    let (destination, behind) = partition b' ' rest in
    let (mask, hops) = partition b' ' behind in
    if is_quad destination && is_quad mask && not (is_empty (dark_run hops))
    then some
        (record { destination = destination; mask = mask; next_hop = dark_run hops; raw = line })
    else none

abbrev matched : Text → Option Text → Option StaticRouteFacts
matched line none = none
matched line (some rest) = route_of line rest

abbrev kept : Option StaticRouteFacts → List StaticRouteFacts → List StaticRouteFacts
kept none routes = routes
kept (some route) routes = route ∷ routes

unfoldable pub routes_of : List Text → List StaticRouteFacts
unfolding route_of after_prefix strip
routes_of [] = []
routes_of (raw ∷ lines) =
    kept (matched (strip raw) (after_prefix (codes "ip route ") (strip raw))) (routes_of lines)

unfoldable pub parse_static_routes : Text → List StaticRouteFacts
unfolding routes_of splitlines
parse_static_routes output = routes_of (splitlines output)
