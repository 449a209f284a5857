-- ===== src/Changes/Prefixes.antt =====
-- changes/types.py: destination prefixes.
pub mod Print
use terraformer.Base.{not, Option, none, some, List, [], ◌∷◌, ◌==◌, if◌then◌else◌, any, ◌>>=◌}
use terraformer.Text.{Text, strip}
use terraformer.Ipv4.{network, dotted, netmask}
use terraformer.Changes.{Issue, prefix_malformed}

-- The dotted destination and mask; `none` is a ValueError.
unfoldable pub prefix_parts : Text → Option (Text × Text)
unfolding network dotted strip
prefix_parts target =
    let cleaned = strip target in
    if not (any (λ c. c == b'/') cleaned)
    then none
    else do found ← network cleaned; some (dotted found.0, dotted (netmask found.1))

unfoldable pub prefix_issues : Text → List Issue
unfolding prefix_parts
prefix_issues target = elim (prefix_parts target) [
  | none ↦ prefix_malformed target ∷ []
  | some parts ↦ []
]
