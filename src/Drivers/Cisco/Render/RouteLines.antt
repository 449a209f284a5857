-- ===== src/Drivers/Cisco/Render/RouteLines.antt =====
-- Every line that a renderer of routes and routing processes produces is one command.
use terraformer.Base.{
  ℕ, ◌≡◌, refl, subst, inl, inr, Bool, true, false, not, Option, none, some, [], ◌∷◌, ◌++◌, any,
  All, Option-cases, if◌then◌else◌, ◌==◌, ◌>>=◌,
}
use terraformer.Text.{Text, codes, is_break, is_space, strip, lower, collapse}
use terraformer.Text.Lines.{IsLine, IsCommand}
use terraformer.Text.Strip.{strip-All, decimal-IsLine, lower-IsLine, collapse-IsLine}
use terraformer.Text.Words.{join-All}
use terraformer.Text.Ends.{no_breaks, line_append}
use terraformer.Text.Numbers.{partition_left-All}
use terraformer.Ipv4.{network, dotted, netmask}
use terraformer.Changes.Prefixes.{prefix_parts}
use terraformer.Drivers.Facts.{
  StaticRouteFacts, RoutingProcessFacts, ChangeContext, as_command, find_statement, static_route,
  routing_process,
}
use terraformer.Drivers.Facts.Laws.{find_statement-IsCommand}
use terraformer.Drivers.Cisco.Batch.{text_or, network_statement, peer_address}
use terraformer.Drivers.Cisco.Routes.{
  route_line, route_batch, render_static_route, router_line, render_router_network,
  render_router_network_remove, render_rip_version, bgp_batch, render_bgp_neighbor,
}
use terraformer.Drivers.Cisco.Render.Commands.{
  OneLine, Given, find-Given, command, literal, one, two, three,
}

dotted-IsLine : (n : ℕ) → IsLine (dotted n)
unfolding dotted is_break
dotted-IsLine n =
    join-All (λ c. is_break c ≡ false) (codes ".") _ (no_breaks (codes ".") refl)
      (decimal-IsLine _, (decimal-IsLine _, (decimal-IsLine _, (decimal-IsLine _, tt))))

pub prefix_parts-lines :
    (target : Text) → Given (λ parts. IsLine parts.0 × IsLine parts.1) (prefix_parts target)
unfolding prefix_parts
prefix_parts-lines target = go (any (λ c. c == b'/') (strip target)) (network (strip target))
  where
    go :
        (b : Bool) (o : Option (ℕ × ℕ))
        → Given
            (λ (parts : Text × Text). IsLine parts.0 × IsLine parts.1)
            (if not b
              then none
              else (o >>= λ found. some (dotted found.0, dotted (netmask found.1))))
    go false o = tt
    go true none = tt
    go true (some found) = (dotted-IsLine _, dotted-IsLine _)

space_line : (s : Text) → IsLine s → IsLine (codes " " ++ s)
unfolding is_break
space_line s h = line_append (codes " ") s (no_breaks (codes " ") refl) h

pub route_line-IsCommand :
    (parts : Text × Text) (hop : Text)
    → IsLine parts.0 × IsLine parts.1
    → IsLine hop
    → IsCommand (route_line parts hop)
unfolding route_line is_break
route_line-IsCommand parts hop p h =
    command (codes "ip route ") _ refl refl
      (line_append parts.0 _ p.0 (space_line _ (line_append parts.1 _ p.1 (space_line hop h))))

-- The texts of a route that was read are single lines.
abbrev pub CleanRoute : StaticRouteFacts → Type 0
CleanRoute r = (IsLine r.raw × IsLine r.destination) × (IsLine r.mask × IsLine r.next_hop)

as_command-IsCommand : (r : StaticRouteFacts) → CleanRoute r → IsCommand (as_command r)
unfolding as_command is_break route_line
as_command-IsCommand r h = go r.raw h.0.0
  where
    go : (raw : Text) → IsLine raw → IsCommand (as_command (record r { raw = raw }))
    go [] l = route_line-IsCommand (r.destination, r.mask) r.next_hop (h.0.1, h.1.0) h.1.1
    go (c ∷ s) l = (λ e. cc e, l)

no_line : (s : Text) → IsLine s → IsCommand (codes "no " ++ s)
unfolding is_break
no_line s h = command (codes "no ") s refl refl h

route_batch-OneLine :
    (added : Text) (existing : Option StaticRouteFacts)
    → IsCommand added
    → Given CleanRoute existing
    → OneLine (route_batch added existing)
unfolding route_batch
route_batch-OneLine added none a h = (one a, one (no_line added a.1))
route_batch-OneLine added (some r) a h =
    let c = as_command-IsCommand r h in (two (no_line _ c.1) a, two (no_line _ a.1) c)

pub static_route-OneLine :
    (target desired : Text) (context : ChangeContext)
    → IsLine desired
    → All CleanRoute context.static_routes
    → OneLine (render_static_route target desired context)
unfolding render_static_route static_route
static_route-OneLine target desired context d h = elim (Option-cases (prefix_parts target)) [
  | inl e ↦ rw (e, OneLine) tt
  | inr (parts, e) ↦
      rw (e, OneLine)
        (route_batch-OneLine (route_line parts desired) _
          (route_line-IsCommand parts desired
            (subst (Given (λ (q : Text × Text). IsLine q.0 × IsLine q.1)) e
              (prefix_parts-lines target))
            d)
          (find-Given CleanRoute _ context.static_routes h))
]

router_command : (process : Text) → IsLine process → IsCommand (router_line process)
unfolding is_break
router_command process h = command (codes "router ") process refl refl h

network_command : (desired : Text) → IsCommand (network_statement desired)
unfolding network_statement is_break
network_command desired = command (codes "network ") _ refl refl (collapse-IsLine desired)

no_router : (process : Text) → IsLine process → IsCommand (codes "no router " ++ process)
unfolding is_break
no_router process h = command (codes "no router ") process refl refl h

strip-IsLine : (s : Text) → IsLine s → IsLine (strip s)
strip-IsLine = strip-All (λ c. is_break c ≡ false)

pub router_network-OneLine :
    (target desired : Text) (context : ChangeContext)
    → IsLine target
    → OneLine (render_router_network target desired context)
unfolding render_router_network
router_network-OneLine target desired context t =
    elim (Option-cases (routing_process context (strip target))) [
      | inl e ↦
          rw (e, OneLine)
            ((two (router_command _ l) (network_command desired), one (no_router _ l)))
      | inr (p, e) ↦
          rw (e, OneLine)
            ((
              two (router_command _ l) (network_command desired),
              two (router_command _ l) (no_line _ (network_command desired).1),
            ))
    ]
  where
    l : IsLine (strip target)
    l = strip-IsLine target t

pub router_network_remove-OneLine :
    (target desired : Text) → IsLine target → OneLine (render_router_network_remove target desired)
unfolding render_router_network_remove
router_network_remove-OneLine target desired t = (
  two (router_command _ (strip-IsLine target t)) (no_line _ (network_command desired).1),
  two (router_command _ (strip-IsLine target t)) (network_command desired),
)

found_or :
    (process : RoutingProcessFacts) (c : ℕ) (prefix otherwise : Text)
    → is_space c ≡ false
    → IsCommand otherwise
    → IsCommand (text_or (find_statement process (c ∷ prefix)) otherwise)
found_or process c prefix otherwise e h =
    elim (Option-cases (find_statement process (c ∷ prefix))) [
      | inl x ↦ rw x h
      | inr (found, x) ↦ rw x (find_statement-IsCommand process c prefix found e x)
    ]

pub rip_version-OneLine :
    (desired : Text) (existing : Option RoutingProcessFacts)
    → IsLine (strip desired)
    → OneLine (render_rip_version desired existing)
unfolding render_rip_version is_break is_space
rip_version-OneLine desired none d = (
  two (literal (codes "router rip") refl refl) (command (codes "version ") _ refl refl d),
  one (literal (codes "no router rip") refl refl),
)
rip_version-OneLine desired (some p) d = (
  two (literal (codes "router rip") refl refl) (command (codes "version ") _ refl refl d),
  two (literal (codes "router rip") refl refl) (
      found_or p b'v' (codes "ersion ") (codes "no version") refl
        (literal (codes "no version") refl refl)),
)

bgp_batch-OneLine :
    (process peer statement : Text) (previous : Option Text)
    → IsLine process
    → IsLine peer
    → IsCommand statement
    → Given IsCommand previous
    → OneLine (bgp_batch process peer statement previous)
unfolding bgp_batch is_break
bgp_batch-OneLine process peer statement none p q s h = (
  two (router_command process p) s,
  two (router_command process p) (command (codes "no neighbor ") peer refl refl q),
)
bgp_batch-OneLine process peer statement (some previous) p q s h = (
  three (router_command process p) (command (codes "no neighbor ") peer refl refl q) s,
  three (router_command process p) (command (codes "no neighbor ") peer refl refl q) h,
)

found-Given :
    (process : RoutingProcessFacts) (c : ℕ) (prefix : Text)
    → is_space c ≡ false
    → Given IsCommand (find_statement process (c ∷ prefix))
found-Given process c prefix e = elim (Option-cases (find_statement process (c ∷ prefix))) [
  | inl x ↦ rw x tt
  | inr (found, x) ↦ rw x (find_statement-IsCommand process c prefix found e x)
]

peer_address-IsLine : (value : Text) → IsLine (peer_address value)
unfolding peer_address
peer_address-IsLine value =
    partition_left-All (λ c. is_break c ≡ false) b' ' (lower (collapse value))
      (lower-IsLine _ (collapse-IsLine value))

pub bgp_neighbor-OneLine :
    (target desired : Text) (context : ChangeContext)
    → IsLine target
    → OneLine (render_bgp_neighbor target desired context)
unfolding render_bgp_neighbor is_break is_space
bgp_neighbor-OneLine target desired context t =
    elim (Option-cases (routing_process context (lower (strip target)))) [
      | inl e ↦ rw (e, OneLine) (two (router_command _ l) s, one (no_router _ l))
      | inr (p, e) ↦
          rw (e, OneLine)
            (bgp_batch-OneLine (lower (strip target)) (peer_address desired) _ _ l
              (peer_address-IsLine desired) s
              (found-Given p b'n'
                (codes "eighbor " ++ (peer_address desired ++ codes " remote-as ")) refl))
    ]
  where
    l : IsLine (lower (strip target))
    l = lower-IsLine _ (strip-IsLine target t)

    s : IsCommand (codes "neighbor " ++ collapse desired)
    s = command (codes "neighbor ") _ refl refl (collapse-IsLine desired)
