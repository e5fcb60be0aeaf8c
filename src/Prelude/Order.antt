-- ===== src/Prelude/Order.antt =====
-- `std::cmp::Ordering`: three-way comparison, its laws, and lexicographic combination.
use Prim.Native.Nat.{ℕ, compare}
use mathlib.Core.Path.{◌≡◌, refl}
use mathlib.Core.Logic.{◌≢◌}
use mathlib.Core.Bool.{Bool, true, false}
use native.Mathlib.Omega.{arith}
pub use Prim.Native.Nat.{Ordering}

-- `Ordering::then_with`
abbrev pub then_with : Ordering → Ordering → Ordering
then_with Ordering.lt p = Ordering.lt
then_with Ordering.eq p = p
then_with Ordering.gt p = Ordering.gt

-- `Ordering::reverse`
abbrev pub flip : Ordering → Ordering
flip Ordering.lt = Ordering.gt
flip Ordering.eq = Ordering.eq
flip Ordering.gt = Ordering.lt

abbrev pub is_gt : Ordering → Bool
is_gt Ordering.gt = true
is_gt _ = false

abbrev pub is_lt : Ordering → Bool
is_lt Ordering.lt = true
is_lt _ = false

-- The laws that `sort_by` asks of its comparison.
pub record IsComparison {ℓ} {A : Type ℓ} (cmp : A → A → Ordering) : Type ℓ where
  pub flipped : (a b : A) → cmp b a ≡ flip (cmp a b)
  pub trans_le : (a b c : A) → cmp a b ≢ Ordering.gt → cmp b c ≢ Ordering.gt → cmp a c ≢ Ordering.gt

-- How a comparison combines along a chain: `chain p q r` when `p`, `q`, `r` may be the comparisons
-- of a with b, b with c and a with c.
abbrev pub Chain : Ordering → Ordering → Ordering → Type 0
Chain Ordering.gt q r = Unit
Chain Ordering.lt Ordering.gt r = Unit
Chain Ordering.eq Ordering.gt r = Unit
Chain Ordering.eq Ordering.eq r = r ≡ Ordering.eq
Chain Ordering.lt Ordering.lt r = r ≡ Ordering.lt
Chain Ordering.lt Ordering.eq r = r ≡ Ordering.lt
Chain Ordering.eq Ordering.lt r = r ≡ Ordering.lt

pub Chain-compare : (a b c : ℕ) → Chain (compare a b) (compare b c) (compare a c)
Chain-compare a b c = ground arith

pub compare-flip : (a b : ℕ) → compare b a ≡ flip (compare a b)
compare-flip a b = ground arith

pub Chain-then_with :
    (p q r p' q' r' : Ordering)
    → Chain p q r
    → Chain p' q' r'
    → Chain (then_with p p') (then_with q q') (then_with r r')
Chain-then_with Ordering.gt q r p' q' r' h k = tt
Chain-then_with Ordering.lt Ordering.gt r p' q' r' h k = tt
Chain-then_with Ordering.lt Ordering.lt r p' q' r' h k = ground arith
Chain-then_with Ordering.lt Ordering.eq r p' Ordering.lt r' h k = ground arith
Chain-then_with Ordering.lt Ordering.eq r p' Ordering.eq r' h k = ground arith
Chain-then_with Ordering.lt Ordering.eq r p' Ordering.gt r' h k = tt
Chain-then_with Ordering.eq Ordering.gt r Ordering.lt q' r' h k = tt
Chain-then_with Ordering.eq Ordering.gt r Ordering.eq q' r' h k = tt
Chain-then_with Ordering.eq Ordering.gt r Ordering.gt q' r' h k = tt
Chain-then_with Ordering.eq Ordering.lt r Ordering.lt q' r' h k = ground arith
Chain-then_with Ordering.eq Ordering.lt r Ordering.eq q' r' h k = ground arith
Chain-then_with Ordering.eq Ordering.lt r Ordering.gt q' r' h k = tt
Chain-then_with Ordering.eq Ordering.eq Ordering.eq p' q' r' h k = k
Chain-then_with Ordering.eq Ordering.eq Ordering.lt p' q' r' h k = cc
Chain-then_with Ordering.eq Ordering.eq Ordering.gt p' q' r' h k = cc

pub flip-then_with : (p q : Ordering) → flip (then_with p q) ≡ then_with (flip p) (flip q)
flip-then_with Ordering.lt q = refl
flip-then_with Ordering.eq q = refl
flip-then_with Ordering.gt q = refl

pub Chain-le :
    (p q r : Ordering) → Chain p q r → p ≢ Ordering.gt → q ≢ Ordering.gt → r ≢ Ordering.gt
Chain-le Ordering.gt q r h np nq = absurd (np refl)
Chain-le Ordering.lt Ordering.gt r h np nq = absurd (nq refl)
Chain-le Ordering.eq Ordering.gt r h np nq = absurd (nq refl)
Chain-le Ordering.lt Ordering.lt r h np nq = cc
Chain-le Ordering.lt Ordering.eq r h np nq = cc
Chain-le Ordering.eq Ordering.lt r h np nq = cc
Chain-le Ordering.eq Ordering.eq r h np nq = cc

-- A comparison that flips and chains is one that `sort_by` accepts.
pub IsComparison-of_Chain {ℓ} :
    {A : Type ℓ} (cmp : A → A → Ordering)
    → ((a b : A) → cmp b a ≡ flip (cmp a b))
    → ((a b c : A) → Chain (cmp a b) (cmp b c) (cmp a c))
    → IsComparison cmp
IsComparison-of_Chain cmp f ch = record {
  flipped = f;
  trans_le = λ a b c. Chain-le (cmp a b) (cmp b c) (cmp a c) (ch a b c);
}
