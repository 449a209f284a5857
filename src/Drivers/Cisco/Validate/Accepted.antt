-- ===== src/Drivers/Cisco/Validate/Accepted.antt =====
-- What an accepted value is made of: the facts that keep a rendered line one line.
use terraformer.Base.{
  ℕ, ◌≡◌, refl, ap, subst, sym, ◌∙◌, ◌⊎◌, inl, inr, Bool, true, false, not, ◌&&◌, List, [], ◌∷◌,
  ◌++◌, arith, all, is_empty, All-imp, Bool-cases, ◌==◌, if◌then◌else◌, ==_iff,
}
use terraformer.Text.{Text, is_break, is_space, is_letter, is_digit, is_printable, strip}
use terraformer.Text.Lines.{IsLine, IsCommand}
use terraformer.Text.Ends.{strip-ne}
use terraformer.Text.Numbers.{all→All}
use terraformer.Changes.{
  Issue, hostname_malformed, vlan_name_empty, vlan_name_malformed, description_not_printable,
  description_empty,
}
use terraformer.Drivers.Cisco.Validate.{
  rest_fits, word_fits, hostname_char, next_hop_char, vlan_name_char, when, vlan_id_issues,
  validate_hostname, validate_vlan_name, validate_description,
}

pub append-eq-nil : (xs ys : List Issue) → xs ++ ys ≡ [] → (xs ≡ []) × (ys ≡ [])
append-eq-nil [] ys h = (refl, h)
append-eq-nil (x ∷ xs) ys h = cc h

pub when-eq-nil : (b : Bool) (i : Issue) → when b i ≡ [] → b ≡ false
when-eq-nil b i h = ground arith

last_newline : (c : ℕ) (s : Text) → (c == 10 && is_empty s) ≡ true → c ∷ s ≡ 10 ∷ []
last_newline c [] h = ap (λ d. d ∷ []) ((==_iff c 10).0 (ground (arith, h)))
last_newline c (d ∷ s) h = ground arith

rest_fits-yes : (p : ℕ → Bool) (c : ℕ) (s : Text) → p c ≡ true → rest_fits p (c ∷ s) ≡ rest_fits p s
unfolding rest_fits
rest_fits-yes p c s e = rw e

rest_fits-no :
    (p : ℕ → Bool) (c : ℕ) (s : Text) → p c ≡ false → rest_fits p (c ∷ s) ≡ (c == 10 && is_empty s)
unfolding rest_fits
rest_fits-no p c s e = rw e

rest_fits-cases :
    (p : ℕ → Bool) (s : Text)
    → ((c : ℕ) → p c ≡ true → is_break c ≡ false)
    → rest_fits p s ≡ true
    → IsLine s ⊎ ((t : Text) × (s ≡ t ++ 10 ∷ []))
rest_fits-cases p [] k h = inl tt
rest_fits-cases p (c ∷ s) k h = elim (Bool-cases (p c)) [
  | inl e ↦ elim (rest_fits-cases p s k (sym (rest_fits-yes p c s e) ∙ h)) [
    | inl l ↦ inl (k c e, l)
    | inr (t, x) ↦ inr (c ∷ t, ap (λ (r : Text). c ∷ r) x)
  ]
  | inr e ↦ inr ([], last_newline c s (sym (rest_fits-no p c s e) ∙ h))
]

letter_break : (c : ℕ) → is_letter c ≡ true → is_break c ≡ false
unfolding is_letter is_break
letter_break c h = ground arith

newline_space : is_space 10 ≡ true
unfolding is_space
newline_space = refl

-- A word that the pattern accepts and that has no white space at its ends is one line.
pub word_fits-IsCommand :
    (p : ℕ → Bool) (s : Text)
    → ((c : ℕ) → p c ≡ true → is_break c ≡ false)
    → word_fits p s ≡ true
    → strip s ≡ s
    → IsCommand s
unfolding word_fits
word_fits-IsCommand p [] k h t = cc h
word_fits-IsCommand p (c ∷ s) k h t =
    let l : is_letter c ≡ true = ground (arith, h) in
    elim (rest_fits-cases p s k (ground (arith, h))) [
      | inl a ↦ (λ e. cc e, (letter_break c l, a))
      | inr (r, x) ↦
          absurd
            (strip-ne (c ∷ r) 10 newline_space (subst (λ (u : Text). strip (c ∷ u) ≡ c ∷ u) x t))
    ]

pub hostname_char-is_break : (c : ℕ) → hostname_char c ≡ true → is_break c ≡ false
unfolding is_letter is_digit is_break
hostname_char-is_break c h = ground arith

pub next_hop_char-is_break : (c : ℕ) → next_hop_char c ≡ true → is_break c ≡ false
unfolding is_letter is_digit is_break
next_hop_char-is_break c h = ground arith

vlan_name_char-is_break : (c : ℕ) → vlan_name_char c ≡ true → is_break c ≡ false
unfolding is_letter is_digit is_break
vlan_name_char-is_break c h = ground arith

is_printable-is_break : (c : ℕ) → is_printable c ≡ true → is_break c ≡ false
unfolding is_printable is_break
is_printable-is_break c h = ground arith

not-false : {b : Bool} → not b ≡ false → b ≡ true
not-false h = ground arith

spelled :
    (name : Text) (b : Bool)
    → (if b
        then vlan_name_empty ∷ []
        else when (not (not (is_empty name) && all vlan_name_char name)) vlan_name_malformed)
      ≡ []
    → all vlan_name_char name ≡ true
spelled name b h = ground arith

printed :
    (a b : Bool)
    → (if not a then description_not_printable ∷ [] else when b description_empty) ≡ []
    → a ≡ true
printed a b h = ground arith

pub accepted_hostname :
    (name : Text) → validate_hostname name ≡ [] → strip name ≡ name → IsCommand name
unfolding validate_hostname
accepted_hostname name h t =
    word_fits-IsCommand hostname_char name hostname_char-is_break
      (not-false (when-eq-nil _ hostname_malformed (append-eq-nil _ _ h).1)) t

pub accepted_vlan_name : (target name : Text) → validate_vlan_name target name ≡ [] → IsLine name
unfolding validate_vlan_name
accepted_vlan_name target name h =
    All-imp (λ c. vlan_name_char c ≡ true) (λ c. is_break c ≡ false) vlan_name_char-is_break name
      (all→All vlan_name_char name (
        spelled name (is_empty (strip name))
          (append-eq-nil _ _ (append-eq-nil (vlan_id_issues target) _ h).1).1))

pub accepted_description : (desired : Text) → validate_description desired ≡ [] → IsLine desired
unfolding validate_description
accepted_description desired h =
    All-imp (λ c. is_printable c ≡ true) (λ c. is_break c ≡ false) is_printable-is_break desired
      (all→All is_printable desired
        (printed (all is_printable desired) (is_empty (strip desired)) (append-eq-nil _ _ h).1))
