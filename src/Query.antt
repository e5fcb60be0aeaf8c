-- ===== src/Query.antt =====
-- `parse_query` and `percent_decode` of crates/aichan-server/src/lib.rs, and the parameters that the
-- handlers read from a query.
pub mod Decode
use ai_channel.Prelude.{
  ℕ, ◌+◌, ◌-◌, ◌*◌, Bool, not, ◌&&◌, Option, none, some, List, [], ◌∷◌, leb, ltb, ◌==◌,
  if◌then◌else◌,
}
use ai_channel.Prelude.Text.{Text, as_bytes, is_empty, split, split_once, parse_usize}
use ai_channel.Http.{insert, unwrap_or}

unfoldable pub is_continuation : ℕ → Bool
is_continuation b = leb 0x80 b && leb b 0xBF

unfoldable pub cons_char : ℕ → Option Text → Option Text
cons_char c none = none
cons_char c (some s) = some (c ∷ s)

-- `String::from_utf8`: the decoder that refuses overlong forms, surrogates and what is out of range
unfoldable pub from_utf8 : List ℕ → Option Text
unfolding is_continuation cons_char
from_utf8 [] = some []
from_utf8 (a ∷ []) = if ltb a 0x80 then some (a ∷ []) else none
from_utf8 (a ∷ b ∷ []) =
    let one = cons_char a (from_utf8 (b ∷ [])) in
    if ltb a 0x80
    then one
    else if leb 0xC2 a && leb a 0xDF && is_continuation b
    then some (((a - 0xC0) * 64 + (b - 0x80)) ∷ [])
    else none
from_utf8 (a ∷ b ∷ c ∷ []) =
    let one = cons_char a (from_utf8 (b ∷ c ∷ [])) in
    let two = cons_char ((a - 0xC0) * 64 + (b - 0x80)) (from_utf8 (c ∷ [])) in
    let code = (a - 0xE0) * 4096 + (b - 0x80) * 64 + (c - 0x80) in
    if ltb a 0x80
    then one
    else if leb 0xC2 a && leb a 0xDF && is_continuation b
    then two
    else if leb 0xE0 a
        && leb a 0xEF
        && is_continuation b
        && is_continuation c
        && leb 0x800 code
        && not (leb 0xD800 code && leb code 0xDFFF)
    then some (code ∷ [])
    else none
from_utf8 (a ∷ b ∷ c ∷ d ∷ rest) =
    let one = cons_char a (from_utf8 (b ∷ c ∷ d ∷ rest)) in
    let two = cons_char ((a - 0xC0) * 64 + (b - 0x80)) (from_utf8 (c ∷ d ∷ rest)) in
    let code = (a - 0xE0) * 4096 + (b - 0x80) * 64 + (c - 0x80) in
    let three = cons_char code (from_utf8 (d ∷ rest)) in
    let wide = (a - 0xF0) * 262144 + (b - 0x80) * 4096 + (c - 0x80) * 64 + (d - 0x80) in
    let four = cons_char wide (from_utf8 rest) in
    if ltb a 0x80
    then one
    else if leb 0xC2 a && leb a 0xDF && is_continuation b
    then two
    else if leb 0xE0 a
        && leb a 0xEF
        && is_continuation b
        && is_continuation c
        && leb 0x800 code
        && not (leb 0xD800 code && leb code 0xDFFF)
    then three
    else if leb 0xF0 a
        && leb a 0xF4
        && is_continuation b
        && is_continuation c
        && is_continuation d
        && leb 0x10000 wide
        && leb wide 0x10FFFF
    then four
    else none

unfoldable pub hex_value : ℕ → Option ℕ
hex_value c =
    if leb b'0' c && leb c b'9'
    then some (c - b'0')
    else if leb b'a' c && leb c b'f'
    then some (c - b'a' + 10)
    else if leb b'A' c && leb c b'F'
    then some (c - b'A' + 10)
    else none

unfoldable pub join_digits : Option ℕ → Option ℕ → Option ℕ
join_digits none low = none
join_digits (some h) none = none
join_digits (some h) (some l) = some (h * 16 + l)

-- `u8::from_str_radix` on two characters, which lets a `+` stand in front of a single digit
unfoldable pub hex_byte : ℕ → ℕ → Option ℕ
unfolding hex_value join_digits
hex_byte high low =
    if high == b'+' then hex_value low else join_digits (hex_value high) (hex_value low)

unfoldable pub cons_byte : Option ℕ → Option (List ℕ) → Option (List ℕ)
cons_byte none rest = none
cons_byte (some b) none = none
cons_byte (some b) (some bytes) = some (b ∷ bytes)

-- the loop of `percent_decode`
unfoldable pub decode_bytes : List ℕ → Option (List ℕ)
unfolding hex_byte cons_byte
decode_bytes [] = some []
decode_bytes (a ∷ []) = if a == b'%' then none else some ((if a == b'+' then b' ' else a) ∷ [])
decode_bytes (a ∷ b ∷ []) =
    let plain = cons_byte (some (if a == b'+' then b' ' else a)) (decode_bytes (b ∷ [])) in
    if a == b'%' then none else plain
decode_bytes (a ∷ b ∷ c ∷ rest) =
    let escaped = cons_byte (hex_byte b c) (decode_bytes rest) in
    let plain = cons_byte (some (if a == b'+' then b' ' else a)) (decode_bytes (b ∷ c ∷ rest)) in
    if a == b'%' then escaped else plain

unfoldable pub decoded_text : Option (List ℕ) → Option Text
decoded_text none = none
decoded_text (some bytes) = from_utf8 bytes

unfoldable pub percent_decode : Text → Option Text
unfolding decoded_text decode_bytes
percent_decode value = decoded_text (decode_bytes (as_bytes value))

-- `part.split_once('=').unwrap_or((part, ""))`
abbrev key_and_value : Text → Option (Text × Text) → Text × Text
key_and_value part none = (part, [])
key_and_value part (some pair) = pair

abbrev insert_decoded : Option Text → Option Text → List (Text × Text) → List (Text × Text)
insert_decoded (some key) (some value) params = insert key value params
insert_decoded _ _ params = params

-- the pairs of a query, collected into a map: a later value replaces an earlier one
unfoldable pub collect_params : List (Text × Text) → List Text → List (Text × Text)
collect_params params [] = params
collect_params params (part ∷ parts) =
    let pair = key_and_value part (split_once b'=' part) in
    let rest =
      collect_params (insert_decoded (percent_decode pair.0) (percent_decode pair.1) params)
        parts in
    let skipped = collect_params params parts in if is_empty part then skipped else rest

unfoldable pub parse_query : Text → List (Text × Text)
unfolding collect_params
parse_query query = collect_params [] (split b'&' query)

abbrev usize_of : Option Text → Option ℕ
usize_of none = none
usize_of (some value) = parse_usize value

-- `.and_then(parse).unwrap_or(default).clamp(1, max)`
unfoldable pub limit_param : ℕ → ℕ → Option Text → ℕ
limit_param default most value =
    let n = unwrap_or default (usize_of value) in
    if ltb n 1 then 1 else if ltb most n then most else n
