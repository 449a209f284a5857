-- ===== src/Changes/Tests.antt =====
-- Examples of VLAN lists, `int` and prefixes.
use terraformer.Base.{◌≡◌, refl, ℕ, ◌<◌, ◌≤◌, ◌%◌, ◌^◌, ◌-◌, arith, none, some, [], ◌∷◌, All}
use terraformer.Text.{codes}
use terraformer.Changes.{vlan_range_backwards}
use terraformer.Changes.Vlans.{int, pos, negsuc, expand_vlan_list, vlan_list_issues}
use terraformer.Changes.Vlans.Bounds.{IsVlanId, expand_vlan_list-IsVlanId}
use terraformer.Changes.Prefixes.{prefix_parts}
use terraformer.Changes.Prefixes.Print.{written, prefix_parts-written}
use terraformer.Ipv4.{dotted, netmask}

ints :
    (int (codes " 1_0 ") ≡ some (pos 10))
    × (int (codes "-5") ≡ some (negsuc 4))
    × (int (codes "1__0") ≡ none)
    × (int (codes "") ≡ none)
unfolding int
ints = (refl, refl, refl, refl)

expanded : expand_vlan_list (codes "1,3-5, 7,x") ≡ 1 ∷ 3 ∷ 4 ∷ 5 ∷ 7 ∷ []
unfolding expand_vlan_list
expanded = refl

backwards : vlan_list_issues (codes "1,20-10") ≡ vlan_range_backwards (codes "20-10") ∷ []
unfolding vlan_list_issues
backwards = refl

listed_lem : vlan_list_issues (codes "1,10-20") ≡ []
unfolding vlan_list_issues
listed_lem = refl

expand_vlan_list-IsVlanId_example : All IsVlanId (expand_vlan_list (codes "1,10-20"))
expand_vlan_list-IsVlanId_example = expand_vlan_list-IsVlanId (codes "1,10-20") listed_lem

-- 10.1.0.0
abbrev ten_one : ℕ
ten_one = 167837696

below_lem : ten_one < 2 ^ 32
below_lem = omega arith

length_lem : 16 ≤ 32
length_lem = omega arith

no_host_bits : ten_one % 2 ^ (32 - 16) ≡ 0
no_host_bits = refl

prefix_parts-written_example :
    prefix_parts (written ten_one 16) ≡ some (dotted ten_one, dotted (netmask 16))
prefix_parts-written_example = prefix_parts-written ten_one 16 below_lem length_lem no_host_bits
