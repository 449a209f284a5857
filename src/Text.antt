-- ===== src/Text.antt =====
-- The operations of Python's `str` that the backend uses, over lists of code points. Texts are
-- ASCII: case, digits and printability are Python's below 128; white space and line boundaries are
-- Python's everywhere.
pub mod Lines
pub mod Strip
pub mod Words
pub mod Ends
pub mod Numbers
use Prim.Native.Char.{code}
use terraformer.Base.{
  ℕ, zero, suc, ◌+◌, ◌-◌, ◌*◌, ◌/◌, ◌%◌, String, Bool, true, false, not, ◌&&◌, ◌||◌, Option, none,
  some, List, [], ◌∷◌, ◌++◌, map, leb, ◌==◌, if◌then◌else◌, is_empty, all,
}

abbrev pub Text : Type 0
Text = List ℕ

abbrev pub codes : String → Text
codes String.[] = []
codes (String.◌∷◌ c s) = code c ∷ codes s

-- `str.isspace` of one character.
unfoldable pub is_space : ℕ → Bool
is_space c =
    leb 9 c && leb c 13
    || leb 28 c && leb c 32
    || c == 0x85
    || c == 0xa0
    || c == 0x1680
    || leb 0x2000 c && leb c 0x200a
    || c == 0x2028
    || c == 0x2029
    || c == 0x202f
    || c == 0x205f
    || c == 0x3000

-- The characters at which `str.splitlines` ends a line.
unfoldable pub is_break : ℕ → Bool
is_break c = leb 10 c && leb c 13 || leb 28 c && leb c 30 || c == 0x85 || c == 0x2028 || c == 0x2029

unfoldable pub is_digit : ℕ → Bool
is_digit c = leb b'0' c && leb c b'9'

unfoldable pub is_letter : ℕ → Bool
is_letter c = leb b'A' c && leb c b'Z' || leb b'a' c && leb c b'z'

-- `str.isprintable` of one character.
unfoldable pub is_printable : ℕ → Bool
is_printable c = leb 32 c && leb c 126

unfoldable pub to_lower : ℕ → ℕ
to_lower c = if leb b'A' c && leb c b'Z' then c + 32 else c

unfoldable pub to_upper : ℕ → ℕ
to_upper c = if leb b'a' c && leb c b'z' then c - 32 else c

unfoldable pub lower : Text → Text
unfolding to_lower
lower = map to_lower

unfoldable pub upper : Text → Text
unfolding to_upper
upper = map to_upper

-- `==` on texts.
unfoldable pub same : Text → Text → Bool
same [] [] = true
same [] (d ∷ t) = false
same (c ∷ s) [] = false
same (c ∷ s) (d ∷ t) = c == d && same s t

unfoldable pub lstrip : Text → Text
lstrip [] = []
lstrip (c ∷ s) = let rest = lstrip s in if is_space c then rest else c ∷ s

abbrev keep_unless : Bool → ℕ → Text → Text
keep_unless drop c [] = if drop then [] else c ∷ []
keep_unless drop c (d ∷ s) = c ∷ d ∷ s

unfoldable pub rstrip : Text → Text
rstrip [] = []
rstrip (c ∷ s) = keep_unless (is_space c) c (rstrip s)

-- `str.strip()`.
unfoldable pub strip : Text → Text
unfolding lstrip rstrip is_space
strip s = lstrip (rstrip s)

-- What is left of a text after a prefix: `startswith` and the slice behind it.
unfoldable pub after_prefix : Text → Text → Option Text
after_prefix [] s = some s
after_prefix (c ∷ p) [] = none
after_prefix (c ∷ p) (d ∷ s) = if c == d then after_prefix p s else none

abbrev pub is_some {ℓ} : {A : Type ℓ} → Option A → Bool
is_some none = false
is_some (some a) = true

-- `s.startswith(p)`, the prefix first.
unfoldable pub starts_with : Text → Text → Bool
unfolding after_prefix
starts_with p s = is_some (after_prefix p s)

-- `p in s`.
unfoldable pub contains : Text → Text → Bool
unfolding starts_with
contains p [] = is_empty p
contains p (c ∷ s) = starts_with p (c ∷ s) || contains p s

abbrev emit : Text → List Text → List Text
emit [] rest = rest
emit (c ∷ w) rest = (c ∷ w) ∷ rest

words_from : Text → Text → List Text
words_from w [] = emit w []
words_from w (c ∷ s) = elim (is_space c) [
  | true ↦ emit w (words_from [] s)
  | false ↦ words_from (w ++ c ∷ []) s
]

-- `str.split()`.
unfoldable pub words : Text → List Text
unfolding words_from is_space
words s = words_from [] s

-- `sep.join(parts)`.
unfoldable pub join : Text → List Text → Text
join sep [] = []
join sep (w ∷ []) = w
join sep (w ∷ v ∷ ws) = w ++ (sep ++ join sep (v ∷ ws))

-- `" ".join(s.split())`.
unfoldable pub collapse : Text → Text
unfolding words join
collapse s = join (codes " ") (words s)

split_from : ℕ → Text → Text → List Text
split_from sep part [] = part ∷ []
split_from sep part (c ∷ s) = elim (c == sep) [
  | true ↦ part ∷ split_from sep [] s
  | false ↦ split_from sep (part ++ c ∷ []) s
]

-- `s.split(sep)` at a one-character separator.
unfoldable pub split_on : ℕ → Text → List Text
unfolding split_from
split_on sep s = split_from sep [] s

-- The first and last parts of `s.partition(sep)`.
unfoldable pub partition : ℕ → Text → Text × Text
partition sep [] = ([], [])
partition sep (c ∷ s) =
    let rest = partition sep s in if c == sep then ([], s) else (c ∷ rest.0, rest.1)

-- The flag tells that the character before was a carriage return, which a newline completes.
lines_from : Bool → Text → Text → List Text
lines_from cr line [] = emit line []
lines_from cr line (c ∷ s) = elim (cr && c == 10) [
  | true ↦ lines_from false line s
  | false ↦ elim (is_break c) [
    | true ↦ line ∷ lines_from (c == 13) [] s
    | false ↦ lines_from false (line ++ c ∷ []) s
  ]
]

-- `str.splitlines()`.
unfoldable pub splitlines : Text → List Text
unfolding lines_from is_break
splitlines s = lines_from false [] s

-- `str(n)` of a number that is not negative; `fuel` bounds the digits.
decimal_from : ℕ → ℕ → Text → Text
decimal_from zero n acc = acc
decimal_from (suc fuel) n acc =
    let digit = b'0' + n % 10 in
    let more = decimal_from fuel (n / 10) (digit ∷ acc) in if n / 10 == 0 then digit ∷ acc else more

unfoldable pub decimal : ℕ → Text
unfolding decimal_from
decimal n = decimal_from (suc n) n []

-- The number that a run of digits writes.
abbrev pub digit_value : ℕ → ℕ
digit_value c = c - b'0'

unfoldable pub number_from : ℕ → Text → ℕ
number_from n [] = n
number_from n (c ∷ s) = number_from (n * 10 + digit_value c) s

unfoldable pub number : Text → ℕ
unfolding number_from
number s = number_from 0 s

unfoldable pub is_digits : Text → Bool
unfolding is_digit
is_digits s = not (is_empty s) && all is_digit s
