-- ===== src/Client/Merge/Tags.antt =====
-- What the loop over tags of `merge_memory_snapshot`, with its sort and `dedup`, keeps and adds.
use ai_channel.Prelude.{
  Bool, ◌≡◌, true, false, ◌||◌, List, [], ◌∷◌, ◌++◌, any, All, All-map_imp, Bool-cases, inl, inr,
  arith, refl, ap, ◌∙◌,
}
use mathlib.Core.Path.{subst}
use ai_channel.Prelude.Text.{Text, text_eq, text_eq_refl, text_eq→eq, compare_text}
use ai_channel.Prelude.Sort.{sort_by, insert_by}
use ai_channel.Client.Merge.{add_tags, dedup, merge_tags}

abbrev pub has_tag : List Text → Text → Bool
has_tag tags tag = any (λ existing. text_eq existing tag) tags

any_append :
    (xs ys : List Text) (tag : Text) → has_tag (xs ++ ys) tag ≡ (has_tag xs tag || has_tag ys tag)
any_append [] ys tag = refl
any_append (x ∷ xs) ys tag = ground (arith, any_append xs ys tag)

pub add_tags-keeps :
    (local remote : List Text) (tag : Text)
    → has_tag local tag ≡ true
    → has_tag (add_tags local remote).1 tag ≡ true
unfolding add_tags
add_tags-keeps local [] tag h = h
add_tags-keeps local (r ∷ rs) tag h =
    let longer : has_tag (local ++ r ∷ []) tag ≡ true =
      ground (arith, any_append local (r ∷ []) tag, h) in
    ground (arith, add_tags-keeps local rs tag h, add_tags-keeps (local ++ r ∷ []) rs tag longer)

add_tags_known :
    (local rs : List Text) (r : Text)
    → has_tag local r ≡ true
    → (add_tags local rs).1 ≡ (add_tags local (r ∷ rs)).1
unfolding add_tags
add_tags_known local rs r e = ground (arith, e)

add_tags_new :
    (local rs : List Text) (r : Text)
    → has_tag local r ≡ false
    → (add_tags (local ++ r ∷ []) rs).1 ≡ (add_tags local (r ∷ rs)).1
unfolding add_tags
add_tags_new local rs r e = ground (arith, e)

abbrev pub HasTags : List Text → List Text → Type 0
HasTags tags wanted = All (λ r. has_tag tags r ≡ true) wanted

add_tags-adds : (local remote : List Text) → HasTags (add_tags local remote).1 remote
add_tags-adds local [] = tt
add_tags-adds local (r ∷ rs) = elim (Bool-cases (has_tag local r)) [
  | inl e ↦
      subst (λ tags. HasTags tags (r ∷ rs)) (add_tags_known local rs r e)
        (add_tags-keeps local rs r e, add_tags-adds local rs)
  | inr e ↦
      subst (λ tags. HasTags tags (r ∷ rs)) (add_tags_new local rs r e)
        (
          add_tags-keeps (local ++ r ∷ []) rs r
              (ground (arith, any_append local (r ∷ []) r, text_eq_refl r)),
          add_tags-adds (local ++ r ∷ []) rs,
        )
]

add_tags-there :
    (local remote : List Text)
    → All (λ r. has_tag local r ≡ true) remote
    → add_tags local remote ≡ (false, local)
unfolding add_tags
add_tags-there local [] h = refl
add_tags-there local (r ∷ rs) h = ground (arith, h.0, add_tags-there local rs h.1)

has_tag-insert_by :
    (x : Text) (xs : List Text) (tag : Text)
    → has_tag (insert_by compare_text x xs) tag ≡ has_tag (x ∷ xs) tag
unfolding insert_by
has_tag-insert_by x [] tag = refl
has_tag-insert_by x (y ∷ ys) tag = ground (arith, has_tag-insert_by x ys tag)

has_tag-sort_by :
    (xs : List Text) (tag : Text) → has_tag (sort_by compare_text xs) tag ≡ has_tag xs tag
unfolding sort_by
has_tag-sort_by [] tag = refl
has_tag-sort_by (x ∷ xs) tag =
    ground (arith, has_tag-insert_by x (sort_by compare_text xs) tag, has_tag-sort_by xs tag)

has_tag-dedup : (xs : List Text) (tag : Text) → has_tag (dedup xs) tag ≡ has_tag xs tag
unfolding dedup
has_tag-dedup [] tag = refl
has_tag-dedup (t ∷ []) tag = refl
has_tag-dedup (s ∷ t ∷ ts) tag = elim (Bool-cases (text_eq s t)) [
  | inr e ↦ ground (arith, e, has_tag-dedup (t ∷ ts) tag)
  | inl e ↦
      let same : text_eq s tag ≡ text_eq t tag = ap (λ u. text_eq u tag) (text_eq→eq s t e) in
      ground (arith, e, same, has_tag-dedup (t ∷ ts) tag)
]

pub merge_tags-has :
    (local remote : List Text) (tag : Text)
    → has_tag (merge_tags local remote).1 tag ≡ has_tag (add_tags local remote).1 tag
unfolding merge_tags
merge_tags-has local remote tag =
    has_tag-dedup (sort_by compare_text (add_tags local remote).1) tag
    ∙ has_tag-sort_by (add_tags local remote).1 tag

pub merge_tags-HasTags : (local remote : List Text) → HasTags (merge_tags local remote).1 remote
merge_tags-HasTags local remote =
    All-map_imp (λ r. has_tag (add_tags local remote).1 r ≡ true)
      (λ r. has_tag (merge_tags local remote).1 r ≡ true) (λ r h. merge_tags-has local remote r ∙ h)
      remote (add_tags-adds local remote)

-- merging the same tags again adds none
pub merge_tags_again :
    (local remote : List Text) → (merge_tags (merge_tags local remote).1 remote).0 ≡ false
unfolding merge_tags
merge_tags_again local remote =
    ap (λ p. p.0)
      (add_tags-there (merge_tags local remote).1 remote (merge_tags-HasTags local remote))
