-- ===== src/Ipv4/Print.antt =====
-- What an address looks like as text.
use terraformer.Base.{
  ℕ, zero, suc, ◌+◌, ◌-◌, ◌*◌, ◌/◌, ◌%◌, ◌^◌, ◌<◌, ◌≡◌, refl, sym, ap, subst, ◌∙◌, Bool, true,
  false, ◌&&◌, Option, none, some, List, [], ◌∷◌, arith, ◌==◌, >>=-some, All, All-imp, Bool-cases,
  inl, inr, ==_iff, and_parts, ◌≤◌,
}
use terraformer.Text.{Text, is_break, is_digit, split_on, is_digits, number, decimal}
use terraformer.Text.Lines.{IsLine}
use terraformer.Text.Ends.{split_on-All, split_on-join, Without}
use terraformer.Text.Numbers.{is_digits-IsLine}
use terraformer.Text.Strip.{decimal-IsDigits}
use terraformer.Ipv4.{octet, address_of, address, dotted, prefix_length, network_of, network}

octet-is_digits : (s : Text) (n : ℕ) → octet s ≡ some n → is_digits s ≡ true
unfolding octet
octet-is_digits s n h = ground arith

octet-IsLine : (s : Text) (n : ℕ) → octet s ≡ some n → IsLine s
octet-IsLine s n h = is_digits-IsLine s (octet-is_digits s n h)

address_of-lines : (ws : List Text) (n : ℕ) → address_of ws ≡ some n → All IsLine ws
unfolding address_of
address_of-lines [] n h = cc
address_of-lines (a ∷ []) n h = cc h
address_of-lines (a ∷ b ∷ []) n h = cc h
address_of-lines (a ∷ b ∷ c ∷ []) n h = cc h
address_of-lines (a ∷ b ∷ c ∷ d ∷ []) n h =
    let (w, (hw, kw)) = >>=-some (octet a) _ n h in
    let (x, (hx, kx)) = >>=-some (octet b) _ n kw in
    let (y, (hy, ky)) = >>=-some (octet c) _ n kx in
    let (z, (hz, kz)) = >>=-some (octet d) _ n ky in
    (octet-IsLine a w hw, (octet-IsLine b x hx, (octet-IsLine c y hy, (octet-IsLine d z hz, tt))))
address_of-lines (a ∷ b ∷ c ∷ d ∷ e ∷ l) n h = cc h

-- A text that reads as an address is one line.
pub address-IsLine : (s : Text) (n : ℕ) → address s ≡ some n → IsLine s
unfolding address is_break
address-IsLine s n h =
    split_on-All (λ c. is_break c ≡ false) b'.' s refl (address_of-lines (split_on b'.' s) n h)

-- Tables over the numbers that an octet and a prefix length may be.
abbrev all_below : (ℕ → Bool) → ℕ → Bool
all_below p zero = true
all_below p (suc n) = p n && all_below p n

all_below-at : (p : ℕ → Bool) (n k : ℕ) → all_below p n ≡ true → k < n → p k ≡ true
all_below-at p zero k h l = absurd (omega (arith, l))
all_below-at p (suc n) k h l = elim (Bool-cases (k == n)) [
  | inl e ↦ subst (λ m. p m ≡ true) (sym ((==_iff k n).0 e)) (and_parts (p n) _ h).0
  | inr e ↦ all_below-at p n k (and_parts (p n) _ h).1 (ground arith)
]

abbrev is_some_of : ℕ → Option ℕ → Bool
is_some_of k none = false
is_some_of k (some m) = m == k

is_some_of-eq : (k : ℕ) (o : Option ℕ) → is_some_of k o ≡ true → o ≡ some k
is_some_of-eq k none h = cc h
is_some_of-eq k (some m) h = ap some ((==_iff m k).0 h)

octets : all_below (λ k. is_some_of k (octet (decimal k))) 256 ≡ true
unfolding octet decimal is_digits number
octets = refl

octet-decimal : (k : ℕ) → k < 256 → octet (decimal k) ≡ some k
octet-decimal k l =
    is_some_of-eq k _ (all_below-at (λ m. is_some_of m (octet (decimal m))) 256 k octets l)

lengths : all_below (λ k. is_some_of k (prefix_length (decimal k))) 33 ≡ true
unfolding prefix_length decimal is_digits number
lengths = refl

pub prefix_length-decimal : (p : ℕ) → p ≤ 32 → prefix_length (decimal p) ≡ some p
prefix_length-decimal p l =
    is_some_of-eq p _
      (all_below-at (λ m. is_some_of m (prefix_length (decimal m))) 33 p lengths (omega (arith, l)))

digit_not_dot : (c : ℕ) → is_digit c ≡ true → (c == b'.') ≡ false
unfolding is_digit
digit_not_dot c h = ground arith

decimal-Without : (n : ℕ) → Without b'.' (decimal n)
decimal-Without n =
    All-imp (λ c. is_digit c ≡ true) _ digit_not_dot (decimal n) (decimal-IsDigits n)

abbrev quad : ℕ → List Text
quad n =
    decimal (n / 2 ^ 24 % 256)
    ∷ decimal (n / 2 ^ 16 % 256)
    ∷ decimal (n / 2 ^ 8 % 256)
    ∷ decimal (n % 256)
    ∷ []

split_on-dotted : (n : ℕ) → split_on b'.' (dotted n) ≡ quad n
unfolding dotted
split_on-dotted n =
    split_on-join b'.' _ _
      (decimal-Without _, (decimal-Without _, (decimal-Without _, (decimal-Without _, tt))))

address_of-octets :
    (a b c d w x y z : ℕ)
    → octet (decimal a) ≡ some w
    → octet (decimal b) ≡ some x
    → octet (decimal c) ≡ some y
    → octet (decimal d) ≡ some z
    → address_of (decimal a ∷ decimal b ∷ decimal c ∷ decimal d ∷ [])
      ≡ some (w * 2 ^ 24 + x * 2 ^ 16 + y * 2 ^ 8 + z)
unfolding address_of
address_of-octets a b c d w x y z h i j k = rw (h, i, j, k) refl

quad_value :
    (n : ℕ)
    → n < 2 ^ 32
    → n / 2 ^ 24 % 256 * 2 ^ 24 + n / 2 ^ 16 % 256 * 2 ^ 16 + n / 2 ^ 8 % 256 * 2 ^ 8 + n % 256 ≡ n
quad_value n l = omega (arith, l)

-- The dotted text of an address reads as that address.
pub address-dotted : (n : ℕ) → n < 2 ^ 32 → address (dotted n) ≡ some n
unfolding address
address-dotted n l =
    ap address_of (split_on-dotted n)
    ∙ address_of-octets _ _ _ _ _ _ _ _ (octet-decimal _ (omega arith))
        (octet-decimal _ (omega arith)) (octet-decimal _ (omega arith))
        (octet-decimal _ (omega arith))
    ∙ ap some (quad_value n l)

-- A network of two parts: an address without host bits, and a length.
pub network-parts :
    (s a m : Text) (n p : ℕ)
    → split_on b'/' s ≡ a ∷ m ∷ []
    → address a ≡ some n
    → prefix_length m ≡ some p
    → n % 2 ^ (32 - p) ≡ 0
    → network s ≡ some (n, p)
unfolding network network_of
network-parts s a m n p h x y e = ap network_of h ∙ rw (x, y, e) refl
