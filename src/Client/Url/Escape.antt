-- ===== src/Client/Url/Escape.antt =====
-- The server decodes what the client escapes.
use ai_channel.Prelude.{
  ℕ, ◌≡◌, ◌<◌, ◌+◌, ◌*◌, ◌/◌, ◌%◌, true, false, List, [], ◌∷◌, ◌++◌, some, All, All-append, inl,
  inr, refl, ap, ◌∙◌, arith, ltb, ◌==◌, Bool-cases, if◌then◌else◌,
}
use ai_channel.Prelude.Text.{Text, as_bytes, utf8_char}
use ai_channel.Query.{
  decode_bytes, cons_byte, hex_byte, hex_value, join_digits, decoded_text, percent_decode,
}
use ai_channel.Query.Decode.{IsChar, from_utf8-as_bytes}
use ai_channel.Client.Url.{upper_hex, is_unreserved, escape_byte, escape_bytes, query_escape}

abbrev IsByte : ℕ → Type 0
IsByte b = b < 256

abbrev IsAscii : ℕ → Type 0
IsAscii b = b < 128

utf8_char-IsByte : (c : ℕ) → IsChar c → All IsByte (utf8_char c)
utf8_char-IsByte c h = elim (Bool-cases (ltb c 0x80)) [
  | inl a ↦ rw a (ground arith, tt)
  | inr a ↦ elim (Bool-cases (ltb c 0x800)) [
    | inl b ↦ rw (a, b) (ground arith, (ground arith, tt))
    | inr b ↦ elim (Bool-cases (ltb c 0x10000)) [
      | inl d ↦ rw (a, b, d) (ground arith, (ground arith, (ground arith, tt)))
      | inr d ↦ rw (a, b, d) (ground (arith, h), (ground arith, (ground arith, (ground arith, tt))))
    ]
  ]
]

as_bytes-IsByte : (s : Text) → All IsChar s → All IsByte (as_bytes s)
unfolding as_bytes
as_bytes-IsByte [] h = tt
as_bytes-IsByte (c ∷ s) h =
    All-append IsByte (utf8_char c) (as_bytes s) (utf8_char-IsByte c h.0) (as_bytes-IsByte s h.1)

as_bytes-ascii : (s : Text) → All IsAscii s → as_bytes s ≡ s
unfolding as_bytes
as_bytes-ascii [] h = refl
as_bytes-ascii (c ∷ s) h = ground (arith, h.0, as_bytes-ascii s h.1)

upper_hex-IsAscii : (d : ℕ) → d < 16 → IsAscii (upper_hex d)
unfolding upper_hex
upper_hex-IsAscii d h = ground arith

escape_byte-IsAscii : (b : ℕ) → IsByte b → All IsAscii (escape_byte b)
unfolding escape_byte is_unreserved
escape_byte-IsAscii b h = elim (Bool-cases (is_unreserved b)) [
  | inl u ↦ rw (escape_byte, u) (ground arith, tt)
  | inr u ↦ elim (Bool-cases (b == b' ')) [
    | inl s ↦ rw (escape_byte, u, s) (ground arith, tt)
    | inr s ↦
        rw (escape_byte, u, s)
          (
            ground arith,
            (
              upper_hex-IsAscii (b / 16) (omega arith),
              (upper_hex-IsAscii (b % 16) (omega arith), tt),
            ),
          )
  ]
]

escape_bytes-IsAscii : (bytes : List ℕ) → All IsByte bytes → All IsAscii (escape_bytes bytes)
unfolding escape_bytes
escape_bytes-IsAscii [] h = tt
escape_bytes-IsAscii (b ∷ bytes) h =
    All-append IsAscii (escape_byte b) (escape_bytes bytes) (escape_byte-IsAscii b h.0)
      (escape_bytes-IsAscii bytes h.1)

hex_value-upper_hex : (d : ℕ) → d < 16 → hex_value (upper_hex d) ≡ some d
unfolding hex_value upper_hex
hex_value-upper_hex d h = ground arith

not_plus : (d : ℕ) → d < 16 → (upper_hex d == b'+') ≡ false
unfolding upper_hex
not_plus d h = ground arith

hex_byte-upper_hex :
    (b : ℕ) → IsByte b → hex_byte (upper_hex (b / 16)) (upper_hex (b % 16)) ≡ some b
unfolding hex_byte join_digits
hex_byte-upper_hex b h =
    rw
      (
        not_plus (b / 16) (omega arith),
        hex_value-upper_hex (b / 16) (omega arith),
        hex_value-upper_hex (b % 16) (omega arith),
      )
      (ap (λ n. some n) (whole b))
  where
    whole : (n : ℕ) → n / 16 * 16 + n % 16 ≡ n
    whole n = omega arith

-- a byte that is no escape is decoded by itself
decode_bytes-plain :
    (a : ℕ) (rest : List ℕ)
    → (a == b'%') ≡ false
    → decode_bytes (a ∷ rest) ≡ cons_byte (some (if a == b'+' then b' ' else a)) (decode_bytes rest)
unfolding decode_bytes cons_byte
decode_bytes-plain a [] h = ground (arith, h)
decode_bytes-plain a (b ∷ []) h = ground (arith, h)
decode_bytes-plain a (b ∷ c ∷ rest) h = ground (arith, h)

decode_bytes-escaped :
    (high low : ℕ) (rest : List ℕ)
    → decode_bytes (b'%' ∷ high ∷ low ∷ rest) ≡ cons_byte (hex_byte high low) (decode_bytes rest)
unfolding decode_bytes
decode_bytes-escaped high low rest = refl

unreserved-not_escape : (b : ℕ) → is_unreserved b ≡ true → (b == b'%') ≡ false
unfolding is_unreserved
unreserved-not_escape b u = ground (arith, u)

unreserved-itself : (b : ℕ) → is_unreserved b ≡ true → (if b == b'+' then b' ' else b) ≡ b
unfolding is_unreserved
unreserved-itself b u = ground (arith, u)

decode_bytes-escape_byte :
    (b : ℕ) (rest : List ℕ)
    → IsByte b
    → decode_bytes (escape_byte b ++ rest) ≡ cons_byte (some b) (decode_bytes rest)
unfolding escape_byte
decode_bytes-escape_byte b rest h = elim (Bool-cases (is_unreserved b)) [
  | inl u ↦ rw (escape_byte, u) (plain u)
  | inr u ↦ elim (Bool-cases (b == b' ')) [
    | inl s ↦ rw (escape_byte, u, s) (space s)
    | inr s ↦ rw (escape_byte, u, s) escaped
  ]
]
  where
    plain :
        is_unreserved b ≡ true → decode_bytes (b ∷ rest) ≡ cons_byte (some b) (decode_bytes rest)
    plain u =
        decode_bytes-plain b rest (unreserved-not_escape b u)
        ∙ ap (λ n. cons_byte (some n) (decode_bytes rest)) (unreserved-itself b u)

    space : (b == b' ') ≡ true → decode_bytes (b'+' ∷ rest) ≡ cons_byte (some b) (decode_bytes rest)
    space s =
        decode_bytes-plain b'+' rest refl
        ∙ ap (λ n. cons_byte (some n) (decode_bytes rest)) (ground (arith, s))

    escaped :
        decode_bytes (b'%' ∷ upper_hex (b / 16) ∷ upper_hex (b % 16) ∷ rest)
        ≡ cons_byte (some b) (decode_bytes rest)
    escaped =
        decode_bytes-escaped (upper_hex (b / 16)) (upper_hex (b % 16)) rest
        ∙ ap (λ n. cons_byte n (decode_bytes rest)) (hex_byte-upper_hex b h)

decode_bytes-escape_bytes :
    (bytes : List ℕ) → All IsByte bytes → decode_bytes (escape_bytes bytes) ≡ some bytes
unfolding escape_bytes decode_bytes cons_byte
decode_bytes-escape_bytes [] h = refl
decode_bytes-escape_bytes (b ∷ bytes) h =
    decode_bytes-escape_byte b (escape_bytes bytes) h.0
    ∙ ap (cons_byte (some b)) (decode_bytes-escape_bytes bytes h.1)

-- What the client escapes for a query, the server's `percent_decode` reads back, for every text of
-- Unicode characters.
pub percent_decode-query_escape :
    (value : Text) → All IsChar value → percent_decode (query_escape value) ≡ some value
unfolding percent_decode query_escape decoded_text
percent_decode-query_escape value chars =
    let bytes = as_bytes-IsByte value chars in
    ap (λ encoded. decoded_text (decode_bytes encoded))
      (as_bytes-ascii (escape_bytes (as_bytes value)) (escape_bytes-IsAscii (as_bytes value) bytes))
    ∙ ap decoded_text (decode_bytes-escape_bytes (as_bytes value) bytes)
    ∙ from_utf8-as_bytes value chars
