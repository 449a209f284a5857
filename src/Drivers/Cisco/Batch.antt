-- ===== src/Drivers/Cisco/Batch.antt =====
-- drivers/cisco_iosxe.py: batches of commands, and the texts that several changes put into them.
use terraformer.Base.{◌+◌, Option, none, some, List, ◌++◌}
use terraformer.Text.{Text, codes, lower, collapse, partition, decimal}
use terraformer.Changes.{RenderedChange}
use terraformer.Changes.Vlans.{ℤ, pos, negsuc}

-- What a renderer may do instead of returning: `unsupported` is `_unsupported(RENDER)`, and
-- `value_error` the bare ValueError of a parse that validation would have refused.
pub data Rendered : Type 0 where
  rendered : RenderedChange → Rendered
  unsupported : Rendered
  value_error : Rendered

abbrev pub batch : List Text → List Text → Rendered
batch commands inverse = rendered (record { commands = commands; inverse_commands = inverse })

-- `_collapse` is `collapse`.
unfoldable pub network_statement : Text → Text
unfolding collapse
network_statement value = codes "network " ++ collapse value

unfoldable pub peer_address : Text → Text
unfolding collapse lower partition
peer_address value = (partition b' ' (lower (collapse value))).0

-- `str(n)` of an integer.
unfoldable pub int_text : ℤ → Text
unfolding decimal
int_text (pos n) = decimal n
int_text (negsuc n) = codes "-" ++ decimal (n + 1)

abbrev pub text_or : Option Text → Text → Text
text_or none s = s
text_or (some r) s = r
