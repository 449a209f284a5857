-- ===== src/Drivers/Cisco/Save/Acknowledged.antt =====
-- What a device printed if its save counts (drivers/cisco_iosxe.py `save_configuration`).
use terraformer.Base.{◌≡◌, Bool, true, false, not, arith, List, [], ◌∷◌, any, All, and_parts}
use terraformer.Text.{Text, codes, lstrip, splitlines, starts_with, contains}
use terraformer.Drivers.Cisco.Save.{unix_lines, save_acknowledged}

-- The output holds `[OK]`, and none of its lines starts with `%` after white space.
abbrev pub SaysOk : Text → Type 0
SaysOk output =
    (contains (codes "[OK]") (unix_lines output) ≡ true)
    × All (λ line. starts_with (codes "%") (lstrip line) ≡ false) (splitlines (unix_lines output))

any→All :
    {A : Type 0} (p : A → Bool) (xs : List A) → not (any p xs) ≡ true → All (λ x. p x ≡ false) xs
any→All p [] h = tt
any→All p (x ∷ xs) h = (ground (arith, h), any→All p xs (ground (arith, h)))

pub save_acknowledged-SaysOk : (output : Text) → save_acknowledged output ≡ true → SaysOk output
unfolding save_acknowledged
save_acknowledged-SaysOk output h =
    let (quiet, ok) =
      and_parts
        (not (any (λ line. starts_with (codes "%") (lstrip line)) (splitlines (unix_lines output))))
        _ h in
    (
      ok,
      any→All (λ line. starts_with (codes "%") (lstrip line)) (splitlines (unix_lines output))
          quiet,
    )
