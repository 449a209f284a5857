-- ===== src/Changes/Routing.antt =====
-- changes/types.py: routing processes and their statements. A pattern is matched on tokens where the
-- source has collapsed the white space of the text before it matches.
use terraformer.Base.{
  ℕ, Bool, false, not, ◌&&◌, ◌||◌, Option, none, some, List, [], ◌∷◌, leb, ltb, ◌==◌, if◌then◌else◌,
  length, all, any, find, ◌>>=◌,
}
use terraformer.Text.{
  Text, codes, strip, lower, same, after_prefix, words, collapse, split_on, partition, number,
  is_digits,
}
use terraformer.Changes.{
  Issue, routing_process_malformed, network_shape, not_ipv4, local_as_out_of_range,
  bgp_neighbor_malformed, remote_as_out_of_range, rip_version_unknown,
}

unfoldable pub normalize_statement : Text → Text
unfolding collapse lower
normalize_statement text = lower (collapse text)

abbrev leads_zero : Text → Bool
leads_zero [] = false
leads_zero (c ∷ s) = c == b'0'

-- `[1-9]\d{0,n-1}`, as the number that it writes.
unfoldable pub positive : ℕ → Text → Option ℕ
unfolding is_digits number
positive most s =
    if is_digits s && not (leads_zero s) && leb (length s) most then some (number s) else none

abbrev either : Option Text → Option Text → Option Text
either none q = q
either (some s) q = some s

-- `_PROCESS_SPEC`: with the id, where the protocol takes one.
process_spec : Text → Option (Option ℕ)
process_spec s = if same s (codes "rip") then some none else do
  digits ← either (after_prefix (codes "ospf ") s) (after_prefix (codes "eigrp ") s)
  id ← positive 5 digits
  some (some id)

pub data Protocol : Type 0 where
  rip eigrp ospf : Protocol

-- The protocol word of "ospf 1"; `none` is the empty text of a malformed spec.
unfoldable pub routing_protocol_of : Text → Option Protocol
unfolding lower strip partition same
routing_protocol_of spec =
    let head = lower (partition b' ' (strip spec)).0 in
    if same head (codes "rip")
    then some rip
    else if same head (codes "eigrp")
    then some eigrp
    else if same head (codes "ospf")
    then some ospf
    else none

unfoldable pub routing_process_issues : Text → List Issue
unfolding process_spec positive after_prefix lower strip same
routing_process_issues spec = elim (process_spec (lower (strip spec))) [
  | none ↦ routing_process_malformed ∷ []
  | some none ↦ []
  | some (some id) ↦ if ltb 65535 id then routing_process_malformed ∷ [] else []
]

abbrev is_octet_text : Text → Bool
is_octet_text s = is_digits s && leb (length s) 3

-- `_IPV4`: four groups of one to three digits.
unfoldable pub is_ipv4_text : Text → Bool
unfolding split_on is_digits
is_ipv4_text s = let groups = split_on b'.' s in length groups == 4 && all is_octet_text groups

abbrev is_area : Text → Bool
is_area s = is_digits s && leb (length s) 10 || is_ipv4_text s

-- `_NETWORK_STATEMENTS`, on the tokens of the statement.
statement_fits : Protocol → List Text → Bool
statement_fits rip (a ∷ []) = is_ipv4_text a
statement_fits eigrp (a ∷ []) = is_ipv4_text a
statement_fits eigrp (a ∷ b ∷ []) = is_ipv4_text a && is_ipv4_text b
statement_fits ospf (a ∷ b ∷ area ∷ x ∷ []) =
    is_ipv4_text a && is_ipv4_text b && same area (codes "area") && is_area x
statement_fits _ _ = false

-- An octet above 255.
unfoldable pub has_large_octet : Text → Bool
unfolding split_on number
has_large_octet s = any (λ o. ltb 255 (number o)) (split_on b'.' s)

-- The tokens that `re.findall(_IPV4, …)` finds in a statement that fits are those of four groups.
unfoldable pub network_statement_issues : Text → Text → List Issue
unfolding routing_protocol_of statement_fits is_ipv4_text has_large_octet words same is_digits
network_statement_issues spec statement = elim (routing_protocol_of spec) [
  | none ↦ []
  | some protocol ↦
      if not (statement_fits protocol (words statement))
      then network_shape ∷ []
      else elim (find (λ w. is_ipv4_text w && has_large_octet w) (words statement)) [
        | none ↦ []
        | some w ↦ not_ipv4 w ∷ []
      ]
]

abbrev pub asn_max : ℕ
asn_max = 4294967295

-- `BGP_PROCESS`, as the AS number.
unfoldable pub bgp_process : Text → Option ℕ
unfolding after_prefix positive
bgp_process s = do digits ← after_prefix (codes "bgp ") s; positive 10 digits

unfoldable pub bgp_process_issues : Text → List Issue
unfolding bgp_process lower strip
bgp_process_issues spec = elim (bgp_process (lower (strip spec))) [
  | none ↦ local_as_out_of_range ∷ []
  | some asn ↦ if ltb asn_max asn then local_as_out_of_range ∷ [] else []
]

-- `_BGP_NEIGHBOR`, on tokens: the peer and its AS number.
bgp_neighbor : List Text → Option (Text × ℕ)
bgp_neighbor (peer ∷ word ∷ asn ∷ []) =
    if is_ipv4_text peer && same word (codes "remote-as")
    then (do n ← positive 10 asn; some (peer, n))
    else none
bgp_neighbor _ = none

unfoldable pub bgp_neighbor_issues : Text → List Issue
unfolding bgp_neighbor is_ipv4_text has_large_octet positive words lower same
bgp_neighbor_issues value = elim (bgp_neighbor (words (lower (collapse value)))) [
  | none ↦ bgp_neighbor_malformed ∷ []
  | some (peer, asn) ↦
      if has_large_octet peer
      then not_ipv4 peer ∷ []
      else if ltb asn_max asn
      then remote_as_out_of_range ∷ []
      else []
]

unfoldable pub rip_version_issues : Text → List Issue
unfolding strip same
rip_version_issues value =
    if same (strip value) (codes "1") || same (strip value) (codes "2")
    then []
    else rip_version_unknown ∷ []
