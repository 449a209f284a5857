-- ===== src/Drivers/Cisco/Validate/Smuggled.antt =====
-- A next hop that starts with a newline: what validation sees and what the device is sent.
use terraformer.Base.{◌≡◌, refl, ap, subst, ◌∙◌, true, none, some, [], ◌∷◌, ◌++◌, append_assoc}
use terraformer.Text.{Text, codes, is_space, splitlines, join}
use terraformer.Text.Lines.{IsLine, IsCommand, newline, splitlines-join}
use terraformer.Text.Ends.{strip-space}
use terraformer.Changes.{RenderedChange}
use terraformer.Changes.Prefixes.{prefix_parts}
use terraformer.Drivers.Facts.{ChangeContext, static_route}
use terraformer.Drivers.Cisco.Batch.{rendered, batch}
use terraformer.Drivers.Cisco.Routes.{route_line, route_batch, render_static_route}
use terraformer.Drivers.Cisco.Render.Commands.{Given}
use terraformer.Drivers.Cisco.Render.RouteLines.{route_line-IsCommand, prefix_parts-lines}
use terraformer.Drivers.Cisco.Validate.{validate_static_route}

newline_space : is_space 10 ≡ true
unfolding is_space
newline_space = refl

unseen :
    (target hop : Text) → validate_static_route target (10 ∷ hop) ≡ validate_static_route target hop
unfolding validate_static_route
unseen target hop = rw (strip-space 10 hop newline_space) refl

-- The line of a route is the line with no next hop, and then the next hop.
route_line-append :
    (parts : Text × Text) (hop : Text) → route_line parts hop ≡ route_line parts [] ++ hop
unfolding route_line
route_line-append parts hop = simp append_assoc

rendered_route :
    (target hop : Text) (context : ChangeContext) (parts : Text × Text)
    → prefix_parts target ≡ some parts
    → static_route context parts.0 parts.1 ≡ none
    → render_static_route target hop context
      ≡ batch (route_line parts hop ∷ []) ((codes "no " ++ route_line parts hop) ∷ [])
unfolding render_static_route route_batch
rendered_route target hop context parts p absent = rw (p, render_static_route, absent) refl

-- A next hop that validation accepts is accepted with a newline in front of it, and where the device
-- has no such route yet, the batch that is sent then has two lines: the route with no next hop, and
-- the next hop as a command of its own.
pub static_route-newline :
    (target hop : Text) (context : ChangeContext) (parts : Text × Text)
    → IsCommand hop
    → validate_static_route target hop ≡ []
    → prefix_parts target ≡ some parts
    → static_route context parts.0 parts.1 ≡ none
    → (validate_static_route target (10 ∷ hop) ≡ [])
      × ((change : RenderedChange) × ((render_static_route target (10 ∷ hop) context
              ≡ rendered change)
            × (splitlines (join newline change.commands) ≡ route_line parts [] ∷ hop ∷ [])))
unfolding join
static_route-newline target hop context parts c v p absent = (
  unseen target hop ∙ v,
  (
    record {
      commands = route_line parts (10 ∷ hop) ∷ [];
      inverse_commands = (codes "no " ++ route_line parts (10 ∷ hop)) ∷ [];
    },
    (
      rendered_route target (10 ∷ hop) context parts p absent,
      ap splitlines (route_line-append parts (10 ∷ hop))
          ∙ splitlines-join (route_line parts [] ∷ hop ∷ []) (
            route_line-IsCommand parts []
                (subst (Given (λ (q : Text × Text). IsLine q.0 × IsLine q.1)) p
                  (prefix_parts-lines target))
                tt,
            (c, tt),
          ),
    ),
  ),
)
