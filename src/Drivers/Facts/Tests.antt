-- ===== src/Drivers/Facts/Tests.antt =====
-- An example of a statement in another spelling.
use terraformer.Base.{◌≡◌, ◌↔◌, refl, map, true, none, [], ◌∷◌}
use terraformer.Text.{Text, codes, lower, words}
use terraformer.Drivers.Facts.{
  RoutingProcessFacts, ChangeContext, has_statement, find_statement, routing_process,
}
use terraformer.Drivers.Facts.Spelling.{lookups_by_words}
use terraformer.Drivers.Facts.Found.{IsSpelledIn, has_statement_iff}

abbrev rip : RoutingProcessFacts
rip = record { name = codes "rip"; statements = codes "version 2" ∷ codes "network 10.0.0.0" ∷ [] }

abbrev with_rip : ChangeContext
with_rip = record {
  interface = none;
  vlans = [];
  switchports = [];
  static_routes = [];
  routing_processes = rip ∷ [];
  hostname = none;
  domain_lookup = none;
}

abbrev shouted : Text
shouted = codes "Network  10.0.0.0"

abbrev plain : Text
plain = codes "network 10.0.0.0 "

same_words : map lower (words shouted) ≡ map lower (words plain)
unfolding words lower
same_words = refl

lookups_by_words_example :
    (has_statement rip shouted ≡ has_statement rip plain)
    × ((find_statement rip shouted ≡ find_statement rip plain)
        × (routing_process with_rip shouted ≡ routing_process with_rip plain))
lookups_by_words_example = lookups_by_words rip with_rip shouted plain same_words

has_statement_iff_example : (has_statement rip shouted ≡ true) ↔ IsSpelledIn rip.statements shouted
has_statement_iff_example = has_statement_iff rip shouted
