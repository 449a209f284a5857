-- ===== src/Drivers/Cisco/Save.antt =====
-- drivers/cisco_iosxe.py: what a device must print for a save of its configuration to count.
pub mod Acknowledged
use terraformer.Base.{Bool, false, not, ◌&&◌, ◌==◌, [], ◌∷◌, if◌then◌else◌, any}
use terraformer.Text.{Text, codes, lstrip, splitlines, starts_with, contains}

abbrev starts_line : Text → Bool
starts_line [] = false
starts_line (c ∷ s) = c == 10

-- `s.replace("\r\n", "\n")`.
unfoldable pub unix_lines : Text → Text
unix_lines [] = []
unix_lines (c ∷ s) = let rest = unix_lines s in if c == 13 && starts_line s then rest else c ∷ rest

-- `save_configuration` returns if this holds of what `write memory` printed, and raises a ValueError
-- if not.
unfoldable pub save_acknowledged : Text → Bool
unfolding unix_lines splitlines starts_with lstrip contains
save_acknowledged output =
    let cleaned = unix_lines output in
    not (any (λ line. starts_with (codes "%") (lstrip line)) (splitlines cleaned))
    && contains (codes "[OK]") cleaned
