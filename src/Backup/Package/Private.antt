-- ===== src/Backup/Package/Private.antt =====
-- What an accepted backup package holds: no key of private material at any depth.
use ai_channel.Prelude.{ℕ, ◌≡◌, false, List, arith, inl, inr}
use ai_channel.Prelude.Result.{ok, Result-cases}
use ai_channel.Json.{
  Value, null, bool, number, string, array, object, Items, nil, cons, Fields, end, field,
}
use ai_channel.Protocol.External.{Codec}
use ai_channel.Backup.Package.{
  is_private_key, reject_private_backup_material, reject_in_items, reject_in_fields,
  validate_hosted_backup_package, parse_hosted_backup_package,
}

unfoldable mutual
  -- no object at any depth has a key of private material
  pub IsFree : Value → Type 0
  IsFree null = Unit
  IsFree (bool b) = Unit
  IsFree (number n) = Unit
  IsFree (string s) = Unit
  IsFree (array values) = AreFree values
  IsFree (object entries) = HasFreeFields entries

  pub AreFree : Items → Type 0
  AreFree nil = Unit
  AreFree (cons v vs) = IsFree v × AreFree vs

  pub HasFreeFields : Fields → Type 0
  HasFreeFields end = Unit
  HasFreeFields (field key v entries) =
      (is_private_key key ≡ false) × IsFree v × HasFreeFields entries

mutual
  unfolding IsFree reject_private_backup_material

  accepted-IsFree : (v : Value) → reject_private_backup_material v ≡ ok tt → IsFree v
  accepted-IsFree null h = tt
  accepted-IsFree (bool b) h = tt
  accepted-IsFree (number n) h = tt
  accepted-IsFree (string s) h = tt
  accepted-IsFree (array values) h = accepted-AreFree values h
  accepted-IsFree (object entries) h = accepted-HasFreeFields entries h

  accepted-AreFree : (vs : Items) → reject_in_items vs ≡ ok tt → AreFree vs
  accepted-AreFree nil h = tt
  accepted-AreFree (cons v vs) h = elim (Result-cases (reject_private_backup_material v)) [
    | inl (u, e) ↦ (accepted-IsFree v e, accepted-AreFree vs (rw e at h))
    | inr (m, e) ↦ absurd (ground (arith, e, h))
  ]

  accepted-HasFreeFields : (fs : Fields) → reject_in_fields fs ≡ ok tt → HasFreeFields fs
  accepted-HasFreeFields end h = tt
  accepted-HasFreeFields (field key v entries) h =
      elim (Result-cases (reject_private_backup_material v)) [
        | inl (u, e) ↦ (
          ground (arith, e, h),
          accepted-IsFree v e,
          accepted-HasFreeFields entries (ground (arith, e, h)),
        )
        | inr (m, e) ↦ absurd (ground (arith, e, h))
      ]

-- A backup package that is accepted is the parsed body, and no object in it, at any depth, has a key
-- that names private material.
pub parse_hosted_backup_package-IsFree :
    (codec : Codec) (body : List ℕ) (value : Value)
    → parse_hosted_backup_package codec body ≡ ok value
    → (codec.parse_value body ≡ ok value) × IsFree value
unfolding parse_hosted_backup_package validate_hosted_backup_package
parse_hosted_backup_package-IsFree codec body value h =
    (ground (arith, h), accepted-IsFree value (ground (arith, h)))
