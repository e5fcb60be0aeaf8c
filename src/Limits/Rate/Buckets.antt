-- ===== src/Limits/Rate/Buckets.antt =====
-- The map of buckets: what one check changes, and what it leaves alone.
use ai_channel.Prelude.{ℕ, ◌≡◌, refl, ◌↔◌, true, some, [], ◌∷◌, arith, if◌then◌else◌}
use ai_channel.Prelude.Text.{text_eq_iff}
use ai_channel.Limits.Rate.{
  RateLimitKey, RateLimitClass, read, write, RateLimitBucket, Buckets, class_eq, key_eq, lookup,
  store, or_insert, charge, check,
}

class_eq→eq : (a b : RateLimitClass) → class_eq a b ≡ true → a ≡ b
class_eq→eq read read h = refl
class_eq→eq read write h = cc
class_eq→eq write read h = cc
class_eq→eq write write h = refl

class_eq_refl : (a : RateLimitClass) → class_eq a a ≡ true
class_eq_refl read = refl
class_eq_refl write = refl

pub key_eq_iff : (a b : RateLimitKey) → (key_eq a b ≡ true) ↔ (a ≡ b)
unfolding key_eq
key_eq_iff a b = (
  λ h. ground (arith, text_eq_iff a.client b.client, class_eq→eq a.class b.class),
  λ e. rw (← e) (ground (arith, text_eq_iff a.client a.client, class_eq_refl a.class)),
)

pub lookup-store :
    (k j : RateLimitKey) (b : RateLimitBucket) (m : Buckets)
    → lookup j (store k b m) ≡ (if key_eq k j then some b else lookup j m)
unfolding lookup store
lookup-store k j b [] = refl
lookup-store k j b ((i, c) ∷ m) =
    ground (arith, key_eq_iff k j, key_eq_iff i k, key_eq_iff i j, lookup-store k j b m)

-- What `check` leaves in the map, for the key that is checked and for every other key.
pub lookup-check :
    (now limit : ℕ) (k j : RateLimitKey) (m : Buckets)
    → lookup j (check now k limit m).1
      ≡ (if key_eq k j then some (charge now limit (or_insert now (lookup k m))).1 else lookup j m)
unfolding check
lookup-check now limit k j m =
    unfold lookup store in lookup-store k j (charge now limit (or_insert now (lookup k m))).1 m
