-- ===== src/Changes/Interfaces.antt =====
-- changes/types.py: interface names in their long and short spellings.
use terraformer.Base.{Bool, Option, none, some, List, [], ◌∷◌, ◌++◌}
use terraformer.Text.{Text, codes, strip, lower, same, after_prefix}

abbrev interface_prefixes : List (Text × Text)
interface_prefixes =
    (codes "twentyfivegige", codes "twe")
    ∷ (codes "tengigabitethernet", codes "te")
    ∷ (codes "fortygigabitethernet", codes "fo")
    ∷ (codes "hundredgige", codes "hu")
    ∷ (codes "gigabitethernet", codes "gi")
    ∷ (codes "fastethernet", codes "fa")
    ∷ (codes "ethernet", codes "et")
    ∷ (codes "port-channel", codes "po")
    ∷ []

abbrev shortened : Text → Option Text → Text → Text
shortened short none otherwise = otherwise
shortened short (some rest) otherwise = short ++ rest

-- The loop over the prefixes: the first long form that fits is replaced.
shorten : List (Text × Text) → Text → Text
shorten [] s = s
shorten ((long, short) ∷ prefixes) s = shortened short (after_prefix long s) (shorten prefixes s)

unfoldable pub normalize_interface_name : Text → Text
unfolding shorten after_prefix strip lower
normalize_interface_name name = shorten interface_prefixes (lower (strip name))

unfoldable pub same_interface : Text → Text → Bool
unfolding normalize_interface_name same
same_interface left right = same (normalize_interface_name left) (normalize_interface_name right)
