-- ===== src/Publish/Discover/Tags.antt =====
-- The tags that `normalize_discover_tags` returns: at most five, none empty, none twice.
use ai_channel.Prelude.{
  suc, ◌≤◌, ◌≡◌, refl, Bool, false, ◌||◌, List, [], ◌∷◌, ◌++◌, arith, length, leb, any, All,
  All-append, length-append, Bool-cases, inl, inr,
}
use ai_channel.Prelude.Text.{Text, text_eq, trim, is_empty, to_ascii_lowercase}
use ai_channel.Publish.Discover.{discover_max_tags, normalize_from, normalize_discover_tags}

-- No element equals one that stands before it.
abbrev pub AllDistinct : List Text → List Text → Type 0
AllDistinct before [] = Unit
AllDistinct before (t ∷ tags) =
    (any (λ existing. text_eq existing t) before ≡ false) × AllDistinct (before ++ t ∷ []) tags

pub record IsNormal (tags : List Text) : Type 0 where
  pub few : length tags ≤ discover_max_tags
  pub nonempty : All (λ t. is_empty t ≡ false) tags
  pub distinct : AllDistinct [] tags

append_cons : (xs : List Text) (t : Text) (ys : List Text) → (xs ++ t ∷ []) ++ ys ≡ xs ++ t ∷ ys
append_cons [] t ys = refl
append_cons (x ∷ xs) t ys = ground (arith, append_cons xs t ys)

append_nil : (xs : List Text) → xs ++ [] ≡ xs
append_nil [] = refl
append_nil (x ∷ xs) = ground (arith, append_nil xs)

AllDistinct-snoc :
    (before xs : List Text) (t : Text)
    → AllDistinct before xs
    → any (λ existing. text_eq existing t) (before ++ xs) ≡ false
    → AllDistinct before (xs ++ t ∷ [])
AllDistinct-snoc before [] t h new = (rw (← append_nil before) new, tt)
AllDistinct-snoc before (x ∷ xs) t h new =
    (h.0, AllDistinct-snoc (before ++ x ∷ []) xs t h.1 (rw (append_cons before x xs) new))

IsNormal-snoc :
    (tags : List Text) (t : Text)
    → suc (length tags) ≤ discover_max_tags
    → IsNormal tags
    → is_empty t ≡ false
    → any (λ existing. text_eq existing t) tags ≡ false
    → IsNormal (tags ++ t ∷ [])
IsNormal-snoc tags t room w full new = record {
  few = omega (arith, room, length-append tags (t ∷ []));
  nonempty = All-append (λ t. is_empty t ≡ false) tags (t ∷ []) w.nonempty (full, tt);
  distinct = AllDistinct-snoc [] tags t w.distinct new;
}

or_false_left : (a b : Bool) → (a || b) ≡ false → a ≡ false
or_false_left a b h = ground arith

or_false_right : (a b : Bool) → (a || b) ≡ false → b ≡ false
or_false_right a b h = ground arith

-- the loop keeps this for what it has collected, where that is below the bound
normalize_from-IsNormal :
    (normalized tags : List Text)
    → suc (length normalized) ≤ discover_max_tags
    → IsNormal normalized
    → IsNormal (normalize_from normalized tags)
unfolding normalize_from
normalize_from-IsNormal normalized [] room w = w
normalize_from-IsNormal normalized (raw ∷ tags) room w =
    let tag = to_ascii_lowercase (trim raw) in
    let seen = any (λ existing. text_eq existing tag) normalized in
    elim (Bool-cases (is_empty tag || seen)) [
      | inl e ↦ rw e (normalize_from-IsNormal normalized tags room w)
      | inr e ↦
          let grown =
            IsNormal-snoc normalized tag room w (or_false_left (is_empty tag) seen e)
              (or_false_right (is_empty tag) seen e) in
          elim (Bool-cases (leb discover_max_tags (length (normalized ++ tag ∷ [])))) [
            | inl f ↦ rw (e, f) grown
            | inr f ↦
                rw (e, f)
                  (normalize_from-IsNormal (normalized ++ tag ∷ []) tags (ground arith) grown)
          ]
    ]

-- The tags of a discovery request are at most five after `normalize_discover_tags`, none of them
-- empty and no two of them equal.
pub normalize_discover_tags-IsNormal : (tags : List Text) → IsNormal (normalize_discover_tags tags)
unfolding normalize_discover_tags
normalize_discover_tags-IsNormal tags =
    normalize_from-IsNormal [] tags (omega arith)
      (record { few = omega arith; nonempty = tt; distinct = tt })
