-- ===== src/Drivers/Cisco/Parsers/Routes.antt =====
-- A static route that is read keeps its line, and its next hop has no white space.
use terraformer.Base.{
  ◌≡◌, refl, true, false, not, ◌&&◌, Option, none, some, List, [], ◌∷◌, All, All-imp, and_parts,
  is_empty, Bool-cases, inl, inr, length, ◌==◌,
}
use terraformer.Text.{
  Text, codes, is_break, is_space, strip, splitlines, split_on, partition, after_prefix, is_digits,
}
use terraformer.Text.Lines.{IsLine, is_break-is_space, splitlines-IsLine}
use terraformer.Text.Numbers.{all→All, is_digits-IsLine}
use terraformer.Text.Ends.{split_on-All}
use terraformer.Drivers.Facts.{StaticRouteFacts}
use terraformer.Text.Strip.{strip-All}
use terraformer.Drivers.Cisco.Render.Commands.{Given}
use terraformer.Drivers.Cisco.Render.RouteLines.{CleanRoute}
use terraformer.Drivers.Cisco.Parsers.{
  is_group, is_quad, dark_run, route_of, matched, kept, routes_of, parse_static_routes,
}

dark_run-IsLine : (s : Text) → IsLine (dark_run s)
unfolding dark_run
dark_run-IsLine [] = tt
dark_run-IsLine (c ∷ s) = elim (Bool-cases (is_space c)) [
  | inl e ↦ rw e tt
  | inr e ↦ rw e (is_break-is_space c e, dark_run-IsLine s)
]

group-IsLine : (s : Text) → is_group s ≡ true → IsLine s
group-IsLine s h = is_digits-IsLine s (and_parts (is_digits s) _ h).0

quad-IsLine : (s : Text) → is_quad s ≡ true → IsLine s
unfolding is_quad is_break
quad-IsLine s h =
    split_on-All (λ c. is_break c ≡ false) b'.' s refl
      (All-imp (λ g. is_group g ≡ true) IsLine group-IsLine (split_on b'.' s)
        (all→All is_group (split_on b'.' s) (and_parts (length (split_on b'.' s) == 4) _ h).1))

route_of-CleanRoute : (line rest : Text) → IsLine line → Given CleanRoute (route_of line rest)
unfolding route_of
route_of-CleanRoute line rest l =
    let d = (partition b' ' rest).0 in
    let m = (partition b' ' (partition b' ' rest).1).0 in
    let hops = (partition b' ' (partition b' ' rest).1).1 in
    elim (Bool-cases (is_quad d && is_quad m && not (is_empty (dark_run hops)))) [
      | inl e ↦
          let (x, y) = and_parts (is_quad d) _ (and_parts (is_quad d && is_quad m) _ e).0 in
          rw (e, Given) ((l, quad-IsLine d x), (quad-IsLine m y, dark_run-IsLine hops))
      | inr e ↦ rw (e, Given) tt
    ]

matched-CleanRoute :
    (line : Text) (o : Option Text) → IsLine line → Given CleanRoute (matched line o)
matched-CleanRoute line none l = tt
matched-CleanRoute line (some rest) l = route_of-CleanRoute line rest l

kept-All :
    (o : Option StaticRouteFacts) (routes : List StaticRouteFacts)
    → Given CleanRoute o
    → All CleanRoute routes
    → All CleanRoute (kept o routes)
kept-All none routes h k = k
kept-All (some r) routes h k = (h, k)

routes_of-All : (lines : List Text) → All IsLine lines → All CleanRoute (routes_of lines)
unfolding routes_of
routes_of-All [] h = tt
routes_of-All (raw ∷ lines) h =
    kept-All _ _
      (matched-CleanRoute (strip raw) (after_prefix (codes "ip route ") (strip raw))
        (strip-All (λ c. is_break c ≡ false) raw h.0))
      (routes_of-All lines h.1)

-- Whatever the device prints, the texts of every static route that is read are single lines, so that a
-- batch that restores such a route has one line for it.
pub parse_static_routes-CleanRoute : (output : Text) → All CleanRoute (parse_static_routes output)
unfolding parse_static_routes
parse_static_routes-CleanRoute output = routes_of-All (splitlines output) (splitlines-IsLine output)
