-- ===== src/Drivers/Cisco/Validate/Sent.antt =====
-- What a change that passed validation sends: exactly the commands that its renderer listed.
use terraformer.Base.{
  ◌≡◌, refl, subst, sym, ◌⊎◌, inl, inr, Bool, true, false, not, ◌&&◌, ◌||◌, none, List, [], ◌∷◌,
  arith, Option-cases, if◌then◌else◌,
}
use terraformer.Text.{Text, codes, is_break, strip, same, join, splitlines}
use terraformer.Text.Lines.{IsLine, newline, splitlines-join}
use terraformer.Text.Strip.{IsTrimmed}
use terraformer.Text.Ends.{same→eq, no_breaks}
use terraformer.Ipv4.{address}
use terraformer.Models.{
  ChangeType, interface_description, interface_admin_state, vlan_name, interface_access_vlan,
  interface_trunk_vlans, router_network, router_network_remove, router_rip_version, bgp_neighbor,
}
use terraformer.Models
use terraformer.Changes.{
  ChangeStepIntent, RenderedChange, Issue, next_hop_malformed, next_hop_empty, rip_target_unknown,
}
use terraformer.Changes.Routing.{rip_version_issues}
use terraformer.Changes.Vlans.Laws.{accepted_list-IsLine}
use terraformer.Ipv4.Print.{address-IsLine}
use terraformer.Drivers.Facts.{ChangeContext}
use terraformer.Drivers.Cisco.Batch.{rendered}
use terraformer.Drivers.Cisco.Render.{render_change}
use terraformer.Drivers.Cisco.Render.Commands.{OneLine}
use terraformer.Drivers.Cisco.Render.OneLine.{CleanContext, ValueLine, render_change-OneLine}
use terraformer.Drivers.Cisco.Validate.{
  or_else, word_fits, next_hop_char, when, is_ipv4, validate_static_route, validate_trunk_vlans,
  validate_rip_version, validate_type, validate_change,
}
use terraformer.Drivers.Cisco.Validate.Accepted.{
  append-eq-nil, word_fits-IsCommand, next_hop_char-is_break, accepted_hostname, accepted_vlan_name,
  accepted_description,
}

is_ipv4-IsLine : (s : Text) → is_ipv4 s ≡ true → IsLine s
unfolding is_ipv4
is_ipv4-IsLine s h = elim (Option-cases (address s)) [
  | inl e ↦ absurd (none_not e)
  | inr (n, e) ↦ address-IsLine s n e
]
  where
    none_not : address s ≡ none → ⊥
    none_not e = cc (e, h)

hop_cases :
    (b x y : Bool)
    → (if b then next_hop_empty ∷ [] else when (not x && not y) next_hop_malformed) ≡ []
    → (x ≡ true) ⊎ (y ≡ true)
hop_cases true x y h = cc h
hop_cases false true y h = inl refl
hop_cases false false true h = inr refl
hop_cases false false false h = cc h

accepted_next_hop :
    (target desired : Text)
    → validate_static_route target desired ≡ []
    → IsTrimmed desired
    → IsLine desired
unfolding validate_static_route
accepted_next_hop target desired h t =
    elim (hop_cases _ (is_ipv4 (strip desired)) (word_fits next_hop_char (strip desired))
      (append-eq-nil _ _ h).1) [
        | inl x ↦ subst IsLine t (is_ipv4-IsLine (strip desired) x)
        | inr x ↦
            (word_fits-IsCommand next_hop_char desired next_hop_char-is_break
              (subst (λ (s : Text). word_fits next_hop_char s ≡ true) t x) t).1
      ]

or_else-left : (xs ys : List Issue) → or_else xs ys ≡ [] → xs ≡ []
or_else-left [] ys h = refl
or_else-left (x ∷ xs) ys h = cc h

accepted_trunk :
    (target desired : Text) (context : ChangeContext)
    → validate_trunk_vlans target desired context ≡ []
    → IsLine (strip desired)
unfolding validate_trunk_vlans
accepted_trunk target desired context h = accepted_list-IsLine desired (or_else-left _ _ h)

version_line :
    (s : Text) (a b : Bool)
    → same s (codes "1") ≡ a
    → same s (codes "2") ≡ b
    → (a || b) ≡ true
    → IsLine s
unfolding is_break
version_line s true b x y h =
    subst IsLine (sym (same→eq s (codes "1") x)) (no_breaks (codes "1") refl)
version_line s false true x y h =
    subst IsLine (sym (same→eq s (codes "2") y)) (no_breaks (codes "2") refl)
version_line s false false x y h = cc h

rip_version_issues-nil : (desired : Text) → rip_version_issues desired ≡ [] → IsLine (strip desired)
unfolding rip_version_issues
rip_version_issues-nil desired h =
    version_line (strip desired) (same (strip desired) (codes "1"))
      (same (strip desired) (codes "2")) refl refl (ground (arith, h))

second :
    (b : Bool) (xs ys : List Issue)
    → (if not b then rip_target_unknown ∷ [] else or_else xs ys) ≡ []
    → xs ≡ []
second true xs ys h = or_else-left xs ys h
second false xs ys h = cc h

accepted_version :
    (target desired : Text) (context : ChangeContext)
    → validate_rip_version target desired context ≡ []
    → IsLine (strip desired)
unfolding validate_rip_version
accepted_version target desired context h = rip_version_issues-nil desired (second _ _ _ h)

-- What a change of this type must not have at the ends of its value, to be sent as one line.
abbrev pub Trimmed : ChangeType → Text → Type 0
Trimmed Models.hostname desired = IsTrimmed desired
Trimmed Models.static_route desired = IsTrimmed desired
Trimmed _ desired = Unit

accepted_type :
    (type : ChangeType) (target desired : Text) (context : ChangeContext)
    → validate_type type target desired context ≡ []
    → Trimmed type desired
    → ValueLine type desired
accepted_type Models.hostname target desired context h t = (accepted_hostname desired h t).1
accepted_type Models.domain_lookup target desired context h t = tt
accepted_type vlan_name target desired context h t = accepted_vlan_name target desired h
accepted_type interface_access_vlan target desired context h t = tt
accepted_type interface_trunk_vlans target desired context h t =
    accepted_trunk target desired context h
accepted_type Models.static_route target desired context h t = accepted_next_hop target desired h t
accepted_type router_network target desired context h t = tt
accepted_type router_network_remove target desired context h t = tt
accepted_type router_rip_version target desired context h t =
    accepted_version target desired context h
accepted_type bgp_neighbor target desired context h t = tt
accepted_type interface_description target desired context h t = accepted_description desired h
accepted_type interface_admin_state target desired context h t = tt

module _ (step : ChangeStepIntent) (context : ChangeContext) (change : RenderedChange) where
  -- A step that passes validation, whose value is trimmed if it is a host name or a next hop, over a
  -- target and facts that are single lines: the stored text of its commands splits back into exactly
  -- the commands that the renderer listed, and so does the stored text of the inverse.
  pub accepted_is_sent :
      IsLine step.target
      → CleanContext context
      → Trimmed step.change_type step.desired_value
      → validate_change step context ≡ []
      → render_change step context ≡ rendered change
      → (splitlines (join newline change.commands) ≡ change.commands)
        × (splitlines (join newline change.inverse_commands) ≡ change.inverse_commands)
  unfolding validate_change
  accepted_is_sent t c trim h e =
      let lines = subst OneLine e (
        render_change-OneLine step context t
          (accepted_type step.change_type step.target step.desired_value context h trim) c) in
      (splitlines-join change.commands lines.0, splitlines-join change.inverse_commands lines.1)
