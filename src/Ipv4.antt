-- ===== src/Ipv4.antt =====
-- The part of Python's `ipaddress` that the backend uses: IPv4 addresses and networks as text.
-- An address is a number below 2 ^ 32. `none` is the ValueError that the library raises.
pub mod Print
use terraformer.Base.{
  ℕ, zero, suc, ◌+◌, ◌-◌, ◌*◌, ◌/◌, ◌%◌, ◌^◌, Bool, true, false, not, ◌&&◌, Option, none, some,
  List, [], ◌∷◌, leb, ltb, ◌==◌, if◌then◌else◌, length, ◌>>=◌,
}
use terraformer.Text.{Text, codes, join, split_on, is_digits, number, decimal}

abbrev starts_with_zero : Text → Bool
starts_with_zero [] = false
starts_with_zero (c ∷ s) = c == b'0'

-- `_parse_octet`: ASCII digits, at most three, no leading zero, at most 255.
unfoldable pub octet : Text → Option ℕ
octet s =
    if is_digits s
      && leb (length s) 3
      && not (starts_with_zero s && ltb 1 (length s))
      && leb (number s) 255
    then some (number s)
    else none

address_of : List Text → Option ℕ
address_of (a ∷ b ∷ c ∷ d ∷ []) = do
  w ← octet a
  x ← octet b
  y ← octet c
  z ← octet d
  some (w * 2 ^ 24 + x * 2 ^ 16 + y * 2 ^ 8 + z)
address_of _ = none

-- `_ip_int_from_string`.
unfoldable pub address : Text → Option ℕ
unfolding address_of octet
address s = address_of (split_on b'.' s)

-- `_string_from_ip_int`.
unfoldable pub dotted : ℕ → Text
dotted n = join (codes ".") (
    decimal (n / 2 ^ 24 % 256)
    ∷ decimal (n / 2 ^ 16 % 256)
    ∷ decimal (n / 2 ^ 8 % 256)
    ∷ decimal (n % 256)
    ∷ [])

-- The mask of a prefix length of at most 32: that many ones, and zeros below them.
abbrev pub netmask : ℕ → ℕ
netmask p = 2 ^ 32 - 2 ^ (32 - p)

-- `_prefix_from_ip_int`: the length of a mask, searched from the top.
length_of_mask : ℕ → ℕ → Option ℕ
length_of_mask zero n = if n == netmask 0 then some 0 else none
length_of_mask (suc p) n =
    let shorter = length_of_mask p n in if n == netmask (suc p) then some (suc p) else shorter

or_else : Option ℕ → Option ℕ → Option ℕ
or_else none q = q
or_else (some p) q = some p

-- `_prefix_from_ip_string`: a netmask, or a hostmask.
mask_length : Text → Option ℕ
mask_length s = do n ← address s; or_else (length_of_mask 32 n) (length_of_mask 32 (2 ^ 32 - 1 - n))

-- `_make_netmask`: a length in digits, or a mask.
unfoldable pub prefix_length : Text → Option ℕ
unfolding mask_length length_of_mask or_else address
prefix_length s = if is_digits s && leb (number s) 32 then some (number s) else mask_length s

network_of : List Text → Option (ℕ × ℕ)
network_of (a ∷ m ∷ []) = do
  ip ← address a
  p ← prefix_length m
  if ip % 2 ^ (32 - p) == 0 then some (ip, p) else none
network_of _ = none

-- `ip_network(s, strict=True)` of a text that names a mask, as far as the result is IPv4: the
-- address and the length. The library raises too where host bits are set.
unfoldable pub network : Text → Option (ℕ × ℕ)
unfolding network_of address prefix_length
network s = network_of (split_on b'/' s)
