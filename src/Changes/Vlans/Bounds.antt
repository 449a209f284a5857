-- ===== src/Changes/Vlans/Bounds.antt =====
-- The ids of an accepted list are VLAN ids.
use terraformer.Base.{
  ℕ, zero, suc, ◌+◌, ◌-◌, ◌≤◌, ◌≡◌, refl, subst, sym, Bool, true, false, not, ◌&&◌, ◌||◌, some,
  List, [], ◌∷◌, arith, all, All, All-append, inl, inr, and_parts, if◌then◌else◌, leb, ltb,
  is_empty,
}
use terraformer.Text.{
  Text, codes, is_digit, is_digits, strip, upper, to_upper, same, split_on, partition, number,
}
use terraformer.Text.Ends.{same→eq}
use terraformer.Changes.{Issue, vlan_range_backwards, vlan_list_out_of_range, vlan_list_malformed}
use terraformer.Changes.Vlans.{
  pos, int, range, range_of, part_ids, ids_of, expand_vlan_list, is_short_number, is_vlan_part,
  part_issues, parts_issues, first_issues, vlan_list_issues, vlan_id_min, vlan_id_max,
}
use terraformer.Changes.Vlans.Laws.{or_parts, accepted_list-All, fits}
use terraformer.Changes.Vlans.Numerals.{int-is_digits, partition-none}

abbrev pub IsVlanId : ℕ → Type 0
IsVlanId v = (vlan_id_min ≤ v) × (v ≤ vlan_id_max)

range-All : (start count : ℕ) → 1 ≤ start → start + count ≤ 4095 → All IsVlanId (range start count)
unfolding range
range-All start zero l h = tt
range-All start (suc count) l h = (
  (omega (arith, l), omega (arith, h)),
  range-All (suc start) count (omega arith) (omega (arith, h)),
)

range_of-All :
    (start end : ℕ)
    → 1 ≤ start
    → start ≤ end
    → end ≤ 4094
    → All IsVlanId (range_of (pos start) (pos end))
unfolding range_of
range_of-All start end l m h = range-All start (end + 1 - start) l (omega (arith, l, m, h))

-- A part of one number, and a part of two.
part_ids-one :
    (part : Text) (n : ℕ)
    → int (partition b'-' part).0 ≡ some (pos n)
    → (partition b'-' part).1 ≡ []
    → part_ids part ≡ range_of (pos n) (pos n)
unfolding part_ids
part_ids-one part n l h = rw (l, part_ids, h) refl

part_ids-two :
    (part : Text) (n m : ℕ)
    → int (partition b'-' part).0 ≡ some (pos n)
    → is_empty (partition b'-' part).1 ≡ false
    → int (partition b'-' part).1 ≡ some (pos m)
    → part_ids part ≡ range_of (pos n) (pos m)
unfolding part_ids
part_ids-two part n m l e h = rw (l, part_ids, e, h) refl

part_bounds :
    (part : Text) (start end : ℕ)
    → (if ltb end start
        then vlan_range_backwards part ∷ []
        else if leb vlan_id_min start && leb end vlan_id_max
        then []
        else vlan_list_out_of_range ∷ [])
      ≡ []
    → (1 ≤ start) × ((start ≤ end) × (end ≤ 4094))
part_bounds part start end h = (ground (arith, h), (ground (arith, h), ground (arith, h)))

part_issues-one :
    (part : Text)
    → (partition b'-' part).1 ≡ []
    → part_issues part ≡ []
    → (1 ≤ number (partition b'-' part).0) × (number (partition b'-' part).0 ≤ 4094)
unfolding part_issues
part_issues-one part e h =
    let b =
      part_bounds part (number (partition b'-' part).0) (number (partition b'-' part).0)
        (subst (λ (high : Text). bounded_issues high ≡ []) e h) in
    (b.0, b.1.1)
  where
    bounded_issues : Text → List Issue
    bounded_issues high =
        let start = number (partition b'-' part).0 in
        let end = (if is_empty high then start else number high) in
        if ltb end start
        then vlan_range_backwards part ∷ []
        else if leb vlan_id_min start && leb end vlan_id_max
        then []
        else vlan_list_out_of_range ∷ []

part_issues-two :
    (part : Text)
    → is_empty (partition b'-' part).1 ≡ false
    → part_issues part ≡ []
    → (1 ≤ number (partition b'-' part).0)
      × ((number (partition b'-' part).0 ≤ number (partition b'-' part).1)
          × (number (partition b'-' part).1 ≤ 4094))
unfolding part_issues
part_issues-two part e h =
    part_bounds part (number (partition b'-' part).0) (number (partition b'-' part).1)
      (subst (λ b. bounded_issues b ≡ []) e h)
  where
    bounded_issues : Bool → List Issue
    bounded_issues b =
        let start = number (partition b'-' part).0 in
        let end = (if b then start else number (partition b'-' part).1) in
        if ltb end start
        then vlan_range_backwards part ∷ []
        else if leb vlan_id_min start && leb end vlan_id_max
        then []
        else vlan_list_out_of_range ∷ []

digits_of : (s : Text) → is_short_number s ≡ true → is_digits s ≡ true
digits_of s h = ground (arith, h)

digits_not_empty : (s : Text) → is_digits s ≡ true → is_empty s ≡ false
unfolding is_digits
digits_not_empty s h = ground (arith, h)

part_ids-All :
    (part : Text) → is_vlan_part part ≡ true → part_issues part ≡ [] → All IsVlanId (part_ids part)
unfolding is_vlan_part
part_ids-All part h i =
    let (low, high) = and_parts (is_short_number (partition b'-' part).0) _ h in
    let n = int-is_digits (partition b'-' part).0 (digits_of _ low) in
    elim (or_parts (same part (partition b'-' part).0) _ high) [
      | inl e ↦
          let none = partition-none b'-' part (sym (same→eq part _ e)) in
          let b = part_issues-one part none i in
          rw (part_ids-one part _ n none) (range_of-All _ _ b.0 (omega arith) b.1)
      | inr e ↦
          let more = digits_not_empty _ (digits_of _ e) in
          let b = part_issues-two part more i in
          rw (part_ids-two part _ _ n more (int-is_digits _ (digits_of _ e)))
            (range_of-All _ _ b.0 b.1.0 b.1.1)
    ]

first_nil : (xs ys : List Issue) → first_issues xs ys ≡ [] → (xs ≡ []) × (ys ≡ [])
first_nil [] ys h = (refl, h)
first_nil (x ∷ xs) ys h = cc h

ids_of-All :
    (parts : List Text)
    → all is_vlan_part parts ≡ true
    → parts_issues parts ≡ []
    → All IsVlanId (ids_of parts)
unfolding ids_of parts_issues
ids_of-All [] h i = tt
ids_of-All (part ∷ parts) h i =
    let (p, ps) = and_parts (is_vlan_part part) _ h in
    let (j, js) = first_nil (part_issues part) _ i in
    All-append IsVlanId (part_ids part) (ids_of parts) (part_ids-All part p j)
      (ids_of-All parts ps js)

listed :
    (b : Bool) (xs : List Issue) → (if not b then vlan_list_malformed ∷ [] else xs) ≡ [] → xs ≡ []
listed true xs h = h
listed false xs h = cc h

digit_upper : (c : ℕ) → is_digit c ≡ true → to_upper c ≡ c
unfolding is_digit to_upper
digit_upper c h = ground arith

upper_same : (s : Text) → All (λ c. to_upper c ≡ c) s → upper s ≡ s
unfolding upper
upper_same [] h = refl
upper_same (c ∷ s) h = rw (h.0, upper_same s h.1) refl

chosen :
    (a b : Bool) (ids : List ℕ)
    → All IsVlanId ids
    → All IsVlanId (if a then [] else if b then range vlan_id_min vlan_id_max else ids)
chosen true b ids h = tt
chosen false true ids h = range-All 1 4094 (omega arith) (omega arith)
chosen false false ids h = h

-- Every id that an accepted list stands for is a VLAN id, from 1 to 4094.
pub expand_vlan_list-IsVlanId :
    (text : Text) → vlan_list_issues text ≡ [] → All IsVlanId (expand_vlan_list text)
unfolding expand_vlan_list vlan_list_issues to_upper
expand_vlan_list-IsVlanId text h =
    chosen (same (upper (strip text)) [] || same (upper (strip text)) (codes "NONE"))
      (same (upper (strip text)) (codes "ALL")) (ids_of (split_on b',' (upper (strip text))))
      (rw
        (upper_same (strip text)
          (accepted_list-All (λ c. to_upper c ≡ c) text digit_upper refl refl h))
        (ids_of-All (split_on b',' (strip text)) (fits _ _ h) (listed _ _ h)))
