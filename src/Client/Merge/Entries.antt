-- ===== src/Client/Merge/Entries.antt =====
-- What the loops over peers and interactions of `merge_memory_snapshot` keep and add.
use ai_channel.Prelude.{
  Bool, ◌≡◌, true, false, List, [], ◌∷◌, leb, All, if◌then◌else◌, Bool-cases, inl, inr, arith, refl,
}
use ai_channel.Prelude.Text.{Text, text_eq, text_eq_refl, text_eq→eq}
use ai_channel.Time.{DateTime}
use ai_channel.Client.Merge.{merge_entry, merge_entries}

module _ {A : Type 0} (id : A → Text) (stamp : A → DateTime) where
  -- The first entry with the id of `remote` is at least as new.
  abbrev pub covered : List A → A → Bool
  covered [] remote = false
  covered (entry ∷ entries) remote =
      if text_eq (id entry) (id remote)
      then leb (stamp remote) (stamp entry)
      else covered entries remote

  merge_entry-covers :
      (remote : A) (local : List A) → covered (merge_entry id stamp remote local).1 remote ≡ true
  unfolding merge_entry
  merge_entry-covers remote [] = ground (arith, text_eq_refl (id remote))
  merge_entry-covers remote (entry ∷ entries) =
      ground (arith, text_eq_refl (id remote), merge_entry-covers remote entries)

  merge_entry-keeps :
      (remote other : A) (local : List A)
      → covered local other ≡ true
      → covered (merge_entry id stamp remote local).1 other ≡ true
  unfolding merge_entry
  merge_entry-keeps remote other [] h = absurd (ground (arith, h))
  merge_entry-keeps remote other (entry ∷ entries) h =
      elim (Bool-cases (text_eq (id entry) (id remote))) [
        | inr e ↦ elim (Bool-cases (text_eq (id entry) (id other))) [
          | inl f ↦ ground (arith, e, f, h)
          | inr f ↦ ground (arith, e, f, h, merge_entry-keeps remote other entries)
        ]
        | inl e ↦
            let same : id entry ≡ id remote = text_eq→eq (id entry) (id remote) e in
            elim (Bool-cases (text_eq (id entry) (id other))) [
              | inl f ↦
                  let g : text_eq (id remote) (id other) ≡ true = rw (← same) f in
                  ground (arith, e, f, g, h)
              | inr f ↦
                  let g : text_eq (id remote) (id other) ≡ false = rw (← same) f in
                  ground (arith, e, f, g, h)
            ]
      ]

  merge_entry-covered :
      (remote : A) (local : List A)
      → covered local remote ≡ true
      → merge_entry id stamp remote local ≡ (false, local)
  unfolding merge_entry
  merge_entry-covered remote [] h = absurd (ground (arith, h))
  merge_entry-covered remote (entry ∷ entries) h =
      elim (Bool-cases (text_eq (id entry) (id remote))) [
        | inl e ↦ ground (arith, e, h)
        | inr e ↦ ground (arith, e, h, merge_entry-covered remote entries)
      ]

  -- what was covered stays covered
  pub merge_entries-keeps :
      (local remote : List A) (other : A)
      → covered local other ≡ true
      → covered (merge_entries id stamp local remote).1 other ≡ true
  unfolding merge_entries
  merge_entries-keeps local [] other h = h
  merge_entries-keeps local (r ∷ rs) other h =
      merge_entries-keeps (merge_entry id stamp r local).1 rs other
        (merge_entry-keeps r other local h)

  -- after the loop every remote entry is covered
  pub merge_entries-covers :
      (local remote : List A)
      → All (λ r. covered (merge_entries id stamp local remote).1 r ≡ true) remote
  unfolding merge_entries
  merge_entries-covers local [] = tt
  merge_entries-covers local (r ∷ rs) = (
    merge_entries-keeps (merge_entry id stamp r local).1 rs r (merge_entry-covers r local),
    merge_entries-covers (merge_entry id stamp r local).1 rs,
  )

  -- entries that are covered change nothing
  pub merge_entries-covered :
      (local remote : List A)
      → All (λ r. covered local r ≡ true) remote
      → merge_entries id stamp local remote ≡ (false, local)
  unfolding merge_entries
  merge_entries-covered local [] h = refl
  merge_entries-covered local (r ∷ rs) h =
      ground (arith, merge_entry-covered r local h.0, merge_entries-covered local rs h.1)
