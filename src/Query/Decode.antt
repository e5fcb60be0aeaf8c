-- ===== src/Query/Decode.antt =====
-- Laws of the decoders: a text that is encoded to UTF-8 is read back, and a byte at a time.
use ai_channel.Prelude.Text.{Text, as_bytes, utf8_char}
use ai_channel.Prelude.{
  not, ◌&&◌, true, false, ℕ, ◌≡◌, ◌<◌, ◌≤◌, ◌⊎◌, ◌+◌, ◌*◌, ◌-◌, List, [], ◌∷◌, arith, ltb, leb, ◌/◌,
  ◌%◌, ◌++◌, some, All, inl, inr, refl, Bool-cases, ap, ◌∙◌,
}
use ai_channel.Query.{from_utf8, is_continuation, cons_char}

-- the numbers that are a character: `char`
abbrev pub IsChar : ℕ → Type 0
IsChar c = (c < 0xD800) ⊎ ((0xE000 ≤ c) × (c ≤ 0x10FFFF))

from_utf8-ascii :
    (a : ℕ) (rest : List ℕ)
    → ltb a 0x80 ≡ true
    → from_utf8 (a ∷ rest) ≡ cons_char a (from_utf8 rest)
unfolding from_utf8 cons_char
from_utf8-ascii a [] h = ground (arith, h)
from_utf8-ascii a (b ∷ []) h = ground (arith, h)
from_utf8-ascii a (b ∷ c ∷ []) h = ground (arith, h)
from_utf8-ascii a (b ∷ c ∷ d ∷ rest) h = ground (arith, h)

from_utf8-two :
    (a b : ℕ) (rest : List ℕ)
    → ltb a 0x80 ≡ false
    → (leb 0xC2 a && leb a 0xDF && is_continuation b) ≡ true
    → from_utf8 (a ∷ b ∷ rest) ≡ cons_char ((a - 0xC0) * 64 + (b - 0x80)) (from_utf8 rest)
unfolding from_utf8 cons_char
from_utf8-two a b [] h k = ground (arith, h, k)
from_utf8-two a b (c ∷ []) h k = ground (arith, h, k)
from_utf8-two a b (c ∷ d ∷ rest) h k = ground (arith, h, k)

from_utf8-three :
    (a b c : ℕ) (rest : List ℕ)
    → ltb a 0x80 ≡ false
    → (leb 0xC2 a && leb a 0xDF && is_continuation b) ≡ false
    → (leb 0xE0 a
        && leb a 0xEF
        && is_continuation b
        && is_continuation c
        && leb 0x800 ((a - 0xE0) * 4096 + (b - 0x80) * 64 + (c - 0x80))
        && not (
            leb 0xD800 ((a - 0xE0) * 4096 + (b - 0x80) * 64 + (c - 0x80))
            && leb ((a - 0xE0) * 4096 + (b - 0x80) * 64 + (c - 0x80)) 0xDFFF))
      ≡ true
    → from_utf8 (a ∷ b ∷ c ∷ rest)
      ≡ cons_char ((a - 0xE0) * 4096 + (b - 0x80) * 64 + (c - 0x80)) (from_utf8 rest)
unfolding from_utf8 cons_char
from_utf8-three a b c [] h k l = rw (h, k, l) refl
from_utf8-three a b c (d ∷ rest) h k l = rw (h, k, l) refl

is_continuation-rem : (n : ℕ) → is_continuation (0x80 + n % 64) ≡ true
unfolding is_continuation
is_continuation-rem n = ground arith

from_utf8-four :
    (a b c d : ℕ) (rest : List ℕ)
    → ltb a 0x80 ≡ false
    → leb a 0xDF ≡ false
    → leb a 0xEF ≡ false
    → (leb 0xF0 a
        && leb a 0xF4
        && is_continuation b
        && is_continuation c
        && is_continuation d
        && leb 0x10000 ((a - 0xF0) * 262144 + (b - 0x80) * 4096 + (c - 0x80) * 64 + (d - 0x80))
        && leb ((a - 0xF0) * 262144 + (b - 0x80) * 4096 + (c - 0x80) * 64 + (d - 0x80)) 0x10FFFF)
      ≡ true
    → from_utf8 (a ∷ b ∷ c ∷ d ∷ rest)
      ≡ cons_char
          ((a - 0xF0) * 262144 + (b - 0x80) * 4096 + (c - 0x80) * 64 + (d - 0x80))
          (from_utf8 rest)
unfolding from_utf8 cons_char
from_utf8-four a b c d rest h k l m = ground (arith, h, k, l, m)

two_value : (c : ℕ) → ((0xC0 + c / 64) - 0xC0) * 64 + ((0x80 + c % 64) - 0x80) ≡ c
two_value c = omega arith

abbrev three_bytes : ℕ → ℕ
three_bytes c =
    ((0xE0 + c / 4096) - 0xE0) * 4096
    + ((0x80 + c / 64 % 64) - 0x80) * 64
    + ((0x80 + c % 64) - 0x80)

three_value : (c : ℕ) → three_bytes c ≡ c
three_value c = omega arith

abbrev four_bytes : ℕ → ℕ
four_bytes c =
    ((0xF0 + c / 262144) - 0xF0) * 262144
    + ((0x80 + c / 4096 % 64) - 0x80) * 4096
    + ((0x80 + c / 64 % 64) - 0x80) * 64
    + ((0x80 + c % 64) - 0x80)

four_value : (c : ℕ) → four_bytes c ≡ c
four_value c = omega arith

three_fits :
    (c : ℕ)
    → IsChar c
    → ltb c 0x800 ≡ false
    → ltb c 0x10000 ≡ true
    → (leb 0xE0 (0xE0 + c / 4096)
        && leb (0xE0 + c / 4096) 0xEF
        && is_continuation (0x80 + c / 64 % 64)
        && is_continuation (0x80 + c % 64)
        && leb 0x800 (three_bytes c)
        && not (leb 0xD800 (three_bytes c) && leb (three_bytes c) 0xDFFF))
      ≡ true
three_fits c h b d =
    rw (is_continuation-rem (c / 64), is_continuation-rem c, three_value c)
      (ground (arith, h, b, d))

four_fits :
    (c : ℕ)
    → IsChar c
    → ltb c 0x10000 ≡ false
    → (leb 0xF0 (0xF0 + c / 262144)
        && leb (0xF0 + c / 262144) 0xF4
        && is_continuation (0x80 + c / 4096 % 64)
        && is_continuation (0x80 + c / 64 % 64)
        && is_continuation (0x80 + c % 64)
        && leb 0x10000 (four_bytes c)
        && leb (four_bytes c) 0x10FFFF)
      ≡ true
four_fits c h d =
    rw
      (
        is_continuation-rem (c / 4096),
        is_continuation-rem (c / 64),
        is_continuation-rem c,
        four_value c,
      )
      (ground (arith, h, d))

from_utf8-utf8_char :
    (c : ℕ) (rest : List ℕ)
    → IsChar c
    → from_utf8 (utf8_char c ++ rest) ≡ cons_char c (from_utf8 rest)
from_utf8-utf8_char c rest h = elim (Bool-cases (ltb c 0x80)) [
  | inl a ↦ rw a (from_utf8-ascii c rest a)
  | inr a ↦ elim (Bool-cases (ltb c 0x800)) [
    | inl b ↦ rw (a, b) (two a b)
    | inr b ↦ elim (Bool-cases (ltb c 0x10000)) [
      | inl d ↦ rw (a, b, d) (three b d)
      | inr d ↦ rw (a, b, d) (four d)
    ]
  ]
]
  where
    two :
        ltb c 0x80 ≡ false
        → ltb c 0x800 ≡ true
        → from_utf8 ((0xC0 + c / 64) ∷ (0x80 + c % 64) ∷ rest) ≡ cons_char c (from_utf8 rest)
    two a b =
        from_utf8-two (0xC0 + c / 64) (0x80 + c % 64) rest (ground arith)
          (ground (arith, a, b, is_continuation-rem c))
        ∙ ap (λ v. cons_char v (from_utf8 rest)) (two_value c)

    three :
        ltb c 0x800 ≡ false
        → ltb c 0x10000 ≡ true
        → from_utf8 ((0xE0 + c / 4096) ∷ (0x80 + c / 64 % 64) ∷ (0x80 + c % 64) ∷ rest)
          ≡ cons_char c (from_utf8 rest)
    three b d =
        from_utf8-three (0xE0 + c / 4096) (0x80 + c / 64 % 64) (0x80 + c % 64) rest (ground arith)
          (ground (arith, b, d)) (three_fits c h b d)
        ∙ ap (λ v. cons_char v (from_utf8 rest)) (three_value c)

    four :
        ltb c 0x10000 ≡ false
        → from_utf8 (
            (0xF0 + c / 262144)
            ∷ (0x80 + c / 4096 % 64)
            ∷ (0x80 + c / 64 % 64)
            ∷ (0x80 + c % 64)
            ∷ rest)
          ≡ cons_char c (from_utf8 rest)
    four d =
        from_utf8-four (0xF0 + c / 262144) (0x80 + c / 4096 % 64) (0x80 + c / 64 % 64)
          (0x80 + c % 64) rest (ground arith) (ground arith) (ground arith) (four_fits c h d)
        ∙ ap (λ v. cons_char v (from_utf8 rest)) (four_value c)

-- what is encoded to UTF-8 is read back
pub from_utf8-as_bytes : (s : Text) → All IsChar s → from_utf8 (as_bytes s) ≡ some s
unfolding as_bytes from_utf8 cons_char
from_utf8-as_bytes [] h = refl
from_utf8-as_bytes (c ∷ s) h =
    from_utf8-utf8_char c (as_bytes s) h.0 ∙ ap (cons_char c) (from_utf8-as_bytes s h.1)
