-- ===== src/Changes/Vlans/Laws.antt =====
-- What an accepted list of VLAN ids is made of.
use terraformer.Base.{
  ℕ, ◌≡◌, refl, sym, subst, Bool, true, false, not, ◌||◌, ◌⊎◌, inl, inr, List, [], ◌∷◌, arith, All,
  All-imp, and_parts, if◌then◌else◌,
}
use terraformer.Text.{Text, is_break, is_digit, strip, same, split_on, partition}
use terraformer.Text.Lines.{IsLine}
use terraformer.Text.Ends.{same→eq, split_on-All}
use terraformer.Text.Numbers.{all→All, is_digits→IsDigits, partition-All}
use terraformer.Text.Strip.{is_digit-is_break}
use terraformer.Changes.{Issue, vlan_list_malformed}
use terraformer.Changes.Vlans.{is_vlan_part, is_short_number, vlan_list_issues}

pub or_parts : (a b : Bool) → (a || b) ≡ true → (a ≡ true) ⊎ (b ≡ true)
or_parts true b h = inl refl
or_parts false b h = inr h

-- What holds of digits and of the hyphen holds of an accepted part.
vlan_part-All {κ} :
    (P : ℕ → Type κ) (part : Text)
    → ((c : ℕ) → is_digit c ≡ true → P c)
    → P b'-'
    → is_vlan_part part ≡ true
    → All P part
unfolding is_vlan_part
vlan_part-All P part d p h =
    let (low, high) = and_parts (is_short_number (partition b'-' part).0) _ h in
    elim (or_parts (same part (partition b'-' part).0) _ high) [
      | inl e ↦ subst (All P) (sym (same→eq part _ e)) (digits _ low)
      | inr e ↦ partition-All P b'-' part p (digits _ low) (digits _ e)
    ]
  where
    digits : (s : Text) → is_short_number s ≡ true → All P s
    digits s e = All-imp (λ c. is_digit c ≡ true) P d s (is_digits→IsDigits s (ground (arith, e)))

pub fits :
    (b : Bool) (xs : List Issue) → (if not b then vlan_list_malformed ∷ [] else xs) ≡ [] → b ≡ true
fits b xs h = ground arith

-- What holds of digits, of the hyphen and of the comma holds of an accepted list.
pub accepted_list-All {κ} :
    (P : ℕ → Type κ) (text : Text)
    → ((c : ℕ) → is_digit c ≡ true → P c)
    → P b'-'
    → P b','
    → vlan_list_issues text ≡ []
    → All P (strip text)
unfolding vlan_list_issues
accepted_list-All P text d p q h = split_on-All P b',' (strip text) q (
    All-imp (λ part. is_vlan_part part ≡ true) (All P) (λ part e. vlan_part-All P part d p e)
      (split_on b',' (strip text)) (all→All is_vlan_part (split_on b',' (strip text)) (fits _ _ h)))

-- A list that is accepted is one line, the white space around it aside.
pub accepted_list-IsLine : (text : Text) → vlan_list_issues text ≡ [] → IsLine (strip text)
unfolding is_break
accepted_list-IsLine text h =
    accepted_list-All (λ c. is_break c ≡ false) text is_digit-is_break refl refl h
