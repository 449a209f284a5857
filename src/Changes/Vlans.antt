-- ===== src/Changes/Vlans.antt =====
-- changes/types.py: trunk lists of VLAN ids, and Python's `int` of a text.
pub mod Laws
pub mod Numerals
pub mod Bounds
use terraformer.Base.{
  ℕ, zero, suc, ◌+◌, ◌-◌, Bool, true, false, not, ◌&&◌, ◌||◌, Option, none, some, List, [], ◌∷◌,
  ◌++◌, leb, ltb, ◌==◌, if◌then◌else◌, length, is_empty, all, any, ◌>>=◌,
}
use terraformer.Text.{
  Text, codes, is_digit, strip, upper, same, split_on, partition, number, is_digits,
}
use terraformer.Changes.{Issue, vlan_list_malformed, vlan_list_out_of_range, vlan_range_backwards}

-- `negsuc n` is -(n + 1).
pub data ℤ : Type 0 where
  pos : ℕ → ℤ
  negsuc : ℕ → ℤ

abbrev cons_digit : ℕ → Option Text → Option Text
cons_digit c none = none
cons_digit c (some s) = some (c ∷ s)

-- The digits of a literal whose single underscores stand between digits; the flag tells that the
-- character before was a digit.
int_digits : Bool → Text → Option Text
int_digits prev [] = if prev then some [] else none
int_digits prev (c ∷ s) = elim (is_digit c) [
  | true ↦ cons_digit c (int_digits true s)
  | false ↦ elim (c == b'_' && prev) [ true ↦ int_digits false s | false ↦ none ]
]

abbrev negate : ℕ → ℤ
negate zero = pos 0
negate (suc n) = negsuc n

unsigned : Text → Option ℕ
unsigned s = do digits ← int_digits false s; some (number digits)

signed : Text → Option ℤ
signed [] = none
signed (c ∷ s) =
    if c == b'-'
    then (do n ← unsigned s; some (negate n))
    else if c == b'+'
    then (do n ← unsigned s; some (pos n))
    else (do n ← unsigned (c ∷ s); some (pos n))

-- `int(s)`; `none` is its ValueError.
unfoldable pub int : Text → Option ℤ
unfolding signed unsigned int_digits is_digit strip number
int s = signed (strip s)

abbrev pub vlan_id_min : ℕ
vlan_id_min = 1

abbrev pub vlan_id_max : ℕ
vlan_id_max = 4094

-- `range(start, start + count)`.
unfoldable pub range : ℕ → ℕ → List ℕ
range start zero = []
range start (suc count) = start ∷ range (suc start) count

-- `range(start, end + 1)`. A start has no minus sign, since the text before the first hyphen of a
-- part has none.
unfoldable pub range_of : ℤ → ℤ → List ℕ
unfolding range
range_of (pos start) (pos end) = range start (end + 1 - start)
range_of _ _ = []

-- The ids of one part of a list; a part that is no number or range adds none.
unfoldable pub part_ids : Text → List ℕ
unfolding int partition range_of
part_ids part =
    let (low, high) = partition b'-' part in
    elim (int low) [
      | none ↦ []
      | some start ↦ elim (if is_empty high then some start else int high) [
        | none ↦ []
        | some end ↦ range_of start end
      ]
    ]

unfoldable pub ids_of : List Text → List ℕ
unfolding part_ids
ids_of [] = []
ids_of (part ∷ parts) = part_ids part ++ ids_of parts

-- The set of ids, as a list.
unfoldable pub expand_vlan_list : Text → List ℕ
unfolding range ids_of strip upper split_on same
expand_vlan_list text =
    let cleaned = upper (strip text) in
    if same cleaned [] || same cleaned (codes "NONE")
    then []
    else if same cleaned (codes "ALL")
    then range vlan_id_min vlan_id_max
    else ids_of (split_on b',' cleaned)

unfoldable pub mem : ℕ → List ℕ → Bool
mem v ids = any (λ w. v == w) ids

-- `==` of two frozensets.
unfoldable pub same_set : List ℕ → List ℕ → Bool
unfolding mem
same_set xs ys = all (λ v. mem v ys) xs && all (λ v. mem v xs) ys

-- `\d{1,4}`.
abbrev is_short_number : Text → Bool
is_short_number s = is_digits s && leb (length s) 4

-- `\d{1,4}(?:-\d{1,4})?`: with no hyphen, all of the part stands before it.
is_vlan_part : Text → Bool
is_vlan_part part =
    let (low, high) = partition b'-' part in
    is_short_number low && (same part low || is_short_number high)

part_issues : Text → List Issue
part_issues part =
    let (low, high) = partition b'-' part in
    let start = number low in
    let end = (if is_empty high then number low else number high) in
    if ltb end start
    then vlan_range_backwards part ∷ []
    else if leb vlan_id_min start && leb end vlan_id_max
    then []
    else vlan_list_out_of_range ∷ []

abbrev first_issues : List Issue → List Issue → List Issue
first_issues [] later = later
first_issues (i ∷ is) later = i ∷ is

parts_issues : List Text → List Issue
parts_issues [] = []
parts_issues (part ∷ parts) = first_issues (part_issues part) (parts_issues parts)

unfoldable pub vlan_list_issues : Text → List Issue
unfolding is_vlan_part parts_issues part_issues partition split_on strip is_digits is_digit number
    same
vlan_list_issues text =
    let parts = split_on b',' (strip text) in
    if not (all is_vlan_part parts) then vlan_list_malformed ∷ [] else parts_issues parts
