-- ===== src/Prelude/Text.antt =====
-- Rust's `str` and `String` as lists of Unicode scalar values, with the methods that the program
-- calls. `str::len` counts the bytes of UTF-8, and the order of `str` is that of its bytes, which
-- is the order of the scalar values.
use Prim.Native.Nat.{ℕ, zero, suc, ◌+◌, ◌-◌, ◌*◌, ◌/◌, ◌%◌, compare}
use Prim.Native.Char.{code}
use Prim.Native.String.{String}
use mathlib.Core.Path.{◌≡◌, refl}
use mathlib.Core.Logic.{◌↔◌}
use mathlib.Core.Bool.{Bool, true, false, ◌&&◌, ◌||◌}
use mathlib.Core.Option.{Option, none, some}
use mathlib.Core.List.{List, [], ◌∷◌, ◌++◌, map, reverse}
use native.Mathlib.Omega.{arith}
use ai_channel.Prelude.Tests.{ltb, leb, ◌==◌, if◌then◌else◌}
use ai_channel.Prelude.Lists.{any}
use ai_channel.Prelude.Order.{
  Ordering, then_with, flip, Chain, Chain-compare, Chain-then_with, compare-flip, flip-then_with,
}

abbrev pub Text : Type 0
Text = List ℕ

abbrev codes : String → Text
codes String.[] = []
codes (String.◌∷◌ c s) = code c ∷ codes s

-- A literal. It stays shut, so that a long message costs nothing in a proof.
unfoldable pub text : String → Text
text s = codes s

unfoldable pub text_eq : Text → Text → Bool
text_eq [] [] = true
text_eq [] (d ∷ t) = false
text_eq (c ∷ s) [] = false
text_eq (c ∷ s) (d ∷ t) = c == d && text_eq s t

pub text_eq→eq : (s t : Text) → text_eq s t ≡ true → s ≡ t
unfolding text_eq
text_eq→eq [] [] h = refl
text_eq→eq [] (d ∷ t) h = cc
text_eq→eq (c ∷ s) [] h = cc
text_eq→eq (c ∷ s) (d ∷ t) h = ground (arith, text_eq→eq s t)

pub text_eq_refl : (s : Text) → text_eq s s ≡ true
unfolding text_eq
text_eq_refl [] = refl
text_eq_refl (c ∷ s) = ground (arith, text_eq_refl s)

pub text_eq_iff : (s t : Text) → (text_eq s t ≡ true) ↔ (s ≡ t)
text_eq_iff s t = (text_eq→eq s t, λ e. rw (← e) (text_eq_refl s))

unfoldable pub compare_text : Text → Text → Ordering
compare_text [] [] = Ordering.eq
compare_text [] (d ∷ t) = Ordering.lt
compare_text (c ∷ s) [] = Ordering.gt
compare_text (c ∷ s) (d ∷ t) = then_with (compare c d) (compare_text s t)

pub compare_text-flip : (s t : Text) → compare_text t s ≡ flip (compare_text s t)
unfolding compare_text
compare_text-flip [] [] = refl
compare_text-flip [] (d ∷ t) = refl
compare_text-flip (c ∷ s) [] = refl
compare_text-flip (c ∷ s) (d ∷ t) = rw (compare-flip c d, compare_text-flip s t, flip-then_with)

pub Chain-compare_text :
    (s t u : Text) → Chain (compare_text s t) (compare_text t u) (compare_text s u)
unfolding compare_text
Chain-compare_text [] [] [] = refl
Chain-compare_text [] [] (e ∷ u) = refl
Chain-compare_text [] (d ∷ t) [] = tt
Chain-compare_text [] (d ∷ t) (e ∷ u) = ground arith
Chain-compare_text (c ∷ s) [] u = tt
Chain-compare_text (c ∷ s) (d ∷ t) [] = ground arith
Chain-compare_text (c ∷ s) (d ∷ t) (e ∷ u) =
    Chain-then_with (compare c d) (compare d e) (compare c e) (compare_text s t) (compare_text t u)
      (compare_text s u) (Chain-compare c d e) (Chain-compare_text s t u)

pub compare_text_eq : (s t : Text) → compare_text s t ≡ Ordering.eq → s ≡ t
unfolding compare_text
compare_text_eq [] [] h = refl
compare_text_eq [] (d ∷ t) h = cc
compare_text_eq (c ∷ s) [] h = cc
compare_text_eq (c ∷ s) (d ∷ t) h = ground (arith, compare_text_eq s t)

-- The bytes of UTF-8.
abbrev pub utf8_char : ℕ → List ℕ
utf8_char c =
    if ltb c 0x80
    then c ∷ []
    else if ltb c 0x800
    then (0xC0 + c / 64) ∷ (0x80 + c % 64) ∷ []
    else if ltb c 0x10000
    then (0xE0 + c / 4096) ∷ (0x80 + c / 64 % 64) ∷ (0x80 + c % 64) ∷ []
    else (0xF0 + c / 262144) ∷ (0x80 + c / 4096 % 64) ∷ (0x80 + c / 64 % 64) ∷ (0x80 + c % 64) ∷ []

-- `str::as_bytes`
unfoldable pub as_bytes : Text → List ℕ
as_bytes [] = []
as_bytes (c ∷ s) = utf8_char c ++ as_bytes s

abbrev char_width : ℕ → ℕ
char_width c = if ltb c 0x80 then 1 else if ltb c 0x800 then 2 else if ltb c 0x10000 then 3 else 4

-- `str::len`
unfoldable pub byte_len : Text → ℕ
byte_len [] = 0
byte_len (c ∷ s) = char_width c + byte_len s

abbrev pub is_empty : Text → Bool
is_empty [] = true
is_empty (c ∷ s) = false

-- `char::is_whitespace`
unfoldable pub is_whitespace : ℕ → Bool
is_whitespace c =
    leb 9 c && leb c 13
    || c == 0x20
    || c == 0x85
    || c == 0xA0
    || c == 0x1680
    || leb 0x2000 c && leb c 0x200A
    || c == 0x2028
    || c == 0x2029
    || c == 0x202F
    || c == 0x205F
    || c == 0x3000

trim_start : Text → Text
trim_start [] = []
trim_start (c ∷ s) = if is_whitespace c then trim_start s else c ∷ s

-- `str::trim`
unfoldable pub trim : Text → Text
unfolding trim_start is_whitespace
trim s = reverse (trim_start (reverse (trim_start s)))

abbrev lower_char : ℕ → ℕ
lower_char c = if leb b'A' c && leb c b'Z' then c + 32 else c

abbrev upper_char : ℕ → ℕ
upper_char c = if leb b'a' c && leb c b'z' then c - 32 else c

-- `str::to_ascii_lowercase`, `str::to_ascii_uppercase`
unfoldable pub to_ascii_lowercase : Text → Text
to_ascii_lowercase s = map lower_char s

unfoldable pub to_ascii_uppercase : Text → Text
to_ascii_uppercase s = map upper_char s

-- `str::strip_prefix`
unfoldable pub strip_prefix : Text → Text → Option Text
strip_prefix [] s = some s
strip_prefix (p ∷ ps) [] = none
strip_prefix (p ∷ ps) (c ∷ s) = if p == c then strip_prefix ps s else none

abbrev is_some {ℓ} : {A : Type ℓ} → Option A → Bool
is_some none = false
is_some (some a) = true

-- `str::starts_with`
unfoldable pub starts_with : Text → Text → Bool
unfolding strip_prefix
starts_with p s = is_some (strip_prefix p s)

abbrev reverse_option : Option Text → Option Text
reverse_option none = none
reverse_option (some s) = some (reverse s)

-- `str::strip_suffix`
unfoldable pub strip_suffix : Text → Text → Option Text
unfolding strip_prefix
strip_suffix p s = reverse_option (strip_prefix (reverse p) (reverse s))

-- `str::contains` of a character
unfoldable pub contains_char : ℕ → Text → Bool
contains_char c s = any (λ d. d == c) s

abbrev cons_first : ℕ → Option (Text × Text) → Option (Text × Text)
cons_first c none = none
cons_first c (some (a, b)) = some (c ∷ a, b)

-- `str::split_once` at a character
unfoldable pub split_once : ℕ → Text → Option (Text × Text)
split_once sep [] = none
split_once sep (c ∷ s) = if c == sep then some ([], s) else cons_first c (split_once sep s)

abbrev cons_head : ℕ → List Text → List Text
cons_head c [] = (c ∷ []) ∷ []
cons_head c (part ∷ parts) = (c ∷ part) ∷ parts

-- `str::split` at a character: always at least one part
unfoldable pub split : ℕ → Text → List Text
split sep [] = [] ∷ []
split sep (c ∷ s) = let rest = split sep s in if c == sep then [] ∷ rest else cons_head c rest

-- decimal digits, on fuel; a number below `10 ^ f` needs `f` rounds
decimal_digits : ℕ → ℕ → Text → Text
decimal_digits zero n acc = acc
decimal_digits (suc f) n acc =
    let more = decimal_digits f (n / 10) ((b'0' + n % 10) ∷ acc) in
    if ltb n 10 then (b'0' + n % 10) ∷ acc else more

-- `ToString` of an unsigned integer; a number below 2 ^ 128 has at most 39 digits
unfoldable pub decimal : ℕ → Text
unfolding decimal_digits
decimal n = decimal_digits 40 n []

parse_digits : ℕ → Text → Option ℕ
parse_digits acc [] = some acc
parse_digits acc (c ∷ s) =
    if leb b'0' c && leb c b'9'
    then (if leb 18446744073709551616 (acc * 10 + (c - 48))
        then none
        else parse_digits (acc * 10 + (c - 48)) s)
    else none

-- `str::parse::<usize>`: an optional sign `+`, then decimal digits, below 2 ^ 64
unfoldable pub parse_usize : Text → Option ℕ
unfolding parse_digits
parse_usize [] = none
parse_usize (c ∷ []) = if c == b'+' then none else parse_digits 0 (c ∷ [])
parse_usize (c ∷ d ∷ s) = if c == b'+' then parse_digits 0 (d ∷ s) else parse_digits 0 (c ∷ d ∷ s)
