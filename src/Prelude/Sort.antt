-- ===== src/Prelude/Sort.antt =====
-- `slice::sort_by`, a stable sort by a three-way comparison, as an insertion sort: for a comparison
-- that is a total preorder every stable sort returns the same list.
use Prim.Native.Nat.{ℕ, zero, suc, ◌+◌}
use mathlib.Core.Path.{◌≡◌, refl}
use mathlib.Core.Logic.{◌≢◌, inl, inr}
use mathlib.Core.Bool.{Bool, true, false}
use mathlib.Core.List.{List, [], ◌∷◌}
use native.Mathlib.Omega.{arith}
use ai_channel.Prelude.Tests.{if◌then◌else◌, Bool-cases}
use ai_channel.Prelude.Lists.{
  length, All, All-map_imp, All-retain, All-take, count_if, retain, take, drop,
}
use ai_channel.Prelude.Order.{Ordering, is_gt, flip, IsComparison}

is_gt→gt : (o : Ordering) → is_gt o ≡ true → o ≡ Ordering.gt
is_gt→gt o h = ground arith

not_is_gt→ne : (o : Ordering) → is_gt o ≡ false → o ≢ Ordering.gt
not_is_gt→ne o h = ground arith

flip_gt : (o : Ordering) {p : Ordering} → o ≡ Ordering.gt → p ≡ flip o → p ≢ Ordering.gt
flip_gt o e f = ground arith

module _ {ℓ} {A : Type ℓ} (cmp : A → A → Ordering) where
  unfoldable pub insert_by : A → List A → List A
  insert_by x [] = x ∷ []
  insert_by x (y ∷ ys) = if is_gt (cmp x y) then y ∷ insert_by x ys else x ∷ y ∷ ys

  unfoldable pub sort_by : List A → List A
  unfolding insert_by
  sort_by [] = []
  sort_by (x ∷ xs) = insert_by x (sort_by xs)

  -- Every element is at most each later one.
  abbrev pub Sorted : List A → Type 0
  Sorted [] = Unit
  Sorted (x ∷ xs) = All (λ y. cmp x y ≢ Ordering.gt) xs × Sorted xs

  pub All-insert_by {κ} :
      (P : A → Type κ) (x : A) (ys : List A) → P x → All P ys → All P (insert_by x ys)
  unfolding insert_by
  All-insert_by P x [] p h = (p, tt)
  All-insert_by P x (y ∷ ys) p h = elim (Bool-cases (is_gt (cmp x y))) [
    | inl e ↦ rw e (h.0, All-insert_by P x ys p h.1)
    | inr e ↦ rw e (p, h)
  ]

  -- sorting keeps a property of all elements
  pub All-sort_by {κ} : (P : A → Type κ) (xs : List A) → All P xs → All P (sort_by xs)
  unfolding sort_by
  All-sort_by P [] h = tt
  All-sort_by P (x ∷ xs) h = All-insert_by P x (sort_by xs) h.0 (All-sort_by P xs h.1)

  count_if-insert_by :
      (p : A → Bool) (x : A) (ys : List A)
      → count_if p (insert_by x ys) ≡ (if p x then 1 else 0) + count_if p ys
  unfolding insert_by
  count_if-insert_by p x [] = refl
  count_if-insert_by p x (y ∷ ys) = elim (Bool-cases (is_gt (cmp x y))) [
    | inl e ↦ rw e (omega (arith, count_if-insert_by p x ys))
    | inr e ↦ rw e refl
  ]

  -- sorting neither loses nor invents: every test holds equally often
  pub count_if-sort_by : (p : A → Bool) (xs : List A) → count_if p (sort_by xs) ≡ count_if p xs
  unfolding sort_by
  count_if-sort_by p [] = refl
  count_if-sort_by p (x ∷ xs) =
      omega (arith, count_if-insert_by p x (sort_by xs), count_if-sort_by p xs)

  length-insert_by : (x : A) (ys : List A) → length (insert_by x ys) ≡ suc (length ys)
  unfolding insert_by
  length-insert_by x [] = refl
  length-insert_by x (y ∷ ys) = elim (Bool-cases (is_gt (cmp x y))) [
    | inl e ↦ rw e (omega (arith, length-insert_by x ys))
    | inr e ↦ rw e refl
  ]

  pub length-sort_by : (xs : List A) → length (sort_by xs) ≡ length xs
  unfolding sort_by
  length-sort_by [] = refl
  length-sort_by (x ∷ xs) = omega (arith, length-insert_by x (sort_by xs), length-sort_by xs)

  -- a sorted list is left as it is
  pub sort_by_of_Sorted : (xs : List A) → Sorted xs → sort_by xs ≡ xs
  unfolding sort_by
  sort_by_of_Sorted [] h = refl
  sort_by_of_Sorted (x ∷ xs) h = rw (sort_by_of_Sorted xs h.1) (insert_by_of_below x xs h.0)
    where
      insert_by_of_below :
          (x : A) (ys : List A) → All (λ y. cmp x y ≢ Ordering.gt) ys → insert_by x ys ≡ x ∷ ys
      insert_by_of_below x [] h = refl
      insert_by_of_below x (y ∷ ys) h = elim (Bool-cases (is_gt (cmp x y))) [
        | inl e ↦ absurd (h.0 (is_gt→gt (cmp x y) e))
        | inr e ↦ rw e refl
      ]

module _ {ℓ} {A : Type ℓ} {cmp : A → A → Ordering} (c : IsComparison cmp) where
  insert_by-Sorted : (x : A) (ys : List A) → Sorted cmp ys → Sorted cmp (insert_by cmp x ys)
  unfolding insert_by
  insert_by-Sorted x [] h = (tt, tt)
  insert_by-Sorted x (y ∷ ys) h = elim (Bool-cases (is_gt (cmp x y))) [
    | inl e ↦ rw e (
      All-insert_by cmp (λ z. cmp y z ≢ Ordering.gt) x ys
          (flip_gt (cmp x y) (is_gt→gt _ e) (c.flipped x y)) h.0,
      insert_by-Sorted x ys h.1,
    )
    | inr e ↦ rw e (
      (
        not_is_gt→ne (cmp x y) e,
        All-map_imp (λ z. cmp y z ≢ Ordering.gt) (λ z. cmp x z ≢ Ordering.gt)
            (λ z. c.trans_le x y z (not_is_gt→ne (cmp x y) e)) ys h.0,
      ),
      h,
    )
  ]

  -- the result of `sort_by` is in order
  pub sort_by-Sorted : (xs : List A) → Sorted cmp (sort_by cmp xs)
  unfolding sort_by
  sort_by-Sorted [] = tt
  sort_by-Sorted (x ∷ xs) = insert_by-Sorted x (sort_by cmp xs) (sort_by-Sorted xs)

module _ {A : Type 0} (cmp : A → A → Ordering) where
  pub Sorted-retain : (p : A → Bool) (xs : List A) → Sorted cmp xs → Sorted cmp (retain p xs)
  Sorted-retain p [] h = tt
  Sorted-retain p (x ∷ xs) h = elim (Bool-cases (p x)) [
    | inl e ↦ rw e (All-retain (λ y. cmp x y ≢ Ordering.gt) p xs h.0, Sorted-retain p xs h.1)
    | inr e ↦ rw e (Sorted-retain p xs h.1)
  ]

  pub Sorted-take : (n : ℕ) (xs : List A) → Sorted cmp xs → Sorted cmp (take n xs)
  Sorted-take zero xs h = tt
  Sorted-take (suc n) [] h = tt
  Sorted-take (suc n) (x ∷ xs) h =
      (All-take (λ y. cmp x y ≢ Ordering.gt) n xs h.0, Sorted-take n xs h.1)

  pub Sorted-drop : (n : ℕ) (xs : List A) → Sorted cmp xs → Sorted cmp (drop n xs)
  Sorted-drop zero xs h = h
  Sorted-drop (suc n) [] h = tt
  Sorted-drop (suc n) (x ∷ xs) h = Sorted-drop n xs h.1
