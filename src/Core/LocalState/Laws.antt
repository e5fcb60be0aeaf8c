-- ===== src/Core/LocalState/Laws.antt =====
-- What is created in the local state directory is what later runs load.
use ai_channel.Prelude.{ℕ, ◌≡◌, ap, List, arith, none, some, inl, inr, Option-cases, true, all}
use ai_channel.Prelude.Text.{Text, text, strip_prefix, byte_len, as_bytes}
use ai_channel.Prelude.Result.{bind-ok, check-ok, map_err, Result, ok, Result-cases}
use ai_channel.Time.{DateTime}
use ai_channel.Core.Device.{
  DeviceFile, new_device, new_device_id, validate_device, validate_device_id, is_ascii_hexdigit,
}
use ai_channel.Core.LocalState.{
  LocalStateDir, File, Refusals, FileCodec, ensure_dirs, read_bytes, write_bytes, read_from,
  write_to, written, create_value, create_or_load, create_or_load_device,
}

-- serde reads a value back that it has written
abbrev pub ReadsBack : {A : Type 0} → FileCodec A → A → Type 0
ReadsBack codec value =
    (bytes : List ℕ) → codec.print value ≡ ok bytes → codec.parse bytes ≡ ok value

module _ {A : Type 0} (codec : FileCodec A) (path : Text) where
  -- what was written without an error is the printed value
  pub written_file :
      (os : Refusals) (value v : A) (file after : File)
      → written codec os path value file ≡ (ok v, after)
      → (bytes : List ℕ) × (codec.print v ≡ ok bytes) × (after ≡ some bytes) × (v ≡ value)
  unfolding written write_to write_bytes
  written_file os value v file after h = elim (Result-cases (codec.print value)) [
    | inr (e, p) ↦ absurd (ground (arith, p, h))
    | inl (bytes, p) ↦ elim (Option-cases os.write) [
      | inr (failure, w) ↦ absurd (ground (arith, p, w, h))
      | inl w ↦ (bytes, ground (arith, p, w, h), ground (arith, p, w, h), ground (arith, p, w, h))
    ]
  ]

  -- what was printed and is valid is read, where the system does not refuse
  pub read_from-print :
      (validate : A → Result (Unit {0})) (os : Refusals) (v : A) (bytes : List ℕ)
      → ReadsBack codec v
      → os.read ≡ none
      → codec.print v ≡ ok bytes
      → validate v ≡ ok tt
      → read_from codec os path validate (some bytes) ≡ ok v
  unfolding read_from read_bytes
  read_from-print validate os v bytes reads r p valid = ground (arith, r, reads bytes p, valid)

  module _ (validate : A → Result (Unit {0})) (os : Refusals) where
    -- what is read depends on the file only, as long as the system does not refuse
    pub read_from_again :
        (later : Refusals) (bytes : List ℕ) (v : A)
        → later.read ≡ none
        → read_from codec os path validate (some bytes) ≡ ok v
        → read_from codec later path validate (some bytes) ≡ ok v
    unfolding read_from read_bytes
    read_from_again later bytes v r h = elim (Option-cases os.read) [
      | inr (e, s) ↦ absurd (ground (arith, s, h))
      | inl s ↦ elim (Result-cases (codec.parse bytes)) [
        | inr (e, p) ↦ absurd (ground (arith, s, p, h))
        | inl (value, p) ↦ ground (arith, r, s, p, h)
      ]
    ]

    -- what is read is valid
    pub read_from-valid :
        (file : File) (v : A) → read_from codec os path validate file ≡ ok v → validate v ≡ ok tt
    unfolding read_from
    read_from-valid file v h =
        let (bytes, b, h1) = bind-ok (read_bytes os path file) _ v h in
        let (value, p, h2) = bind-ok (map_err _ (codec.parse bytes)) _ v h1 in
        let (valid, same) = check-ok (validate value) _ v h2 in
        let e : value ≡ v = ground arith in rw (← e) valid

    create_or_load_after :
        (state : LocalStateDir) (later : Refusals) (fresh other v : A) (file after : File)
        → ReadsBack codec v
        → later.read ≡ none
        → validate fresh ≡ ok tt
        → create_or_load codec validate state os path fresh file ≡ (ok v, after)
        → create_or_load codec validate state later path other after ≡ (ok v, after)
    unfolding create_or_load create_value
    create_or_load_after state later fresh other v (some bytes) after reads r valid h =
        rw (← (ap (λ p. p.1) h))
          (ap (λ x. (x, some bytes)) (read_from_again later bytes v r (ap (λ p. p.0) h)))
    create_or_load_after state later fresh other v none after reads r valid h =
        elim (Result-cases (ensure_dirs state os)) [
          | inr (e, d) ↦ absurd (ground (arith, d, h))
          | inl (u, d) ↦
              let (bytes, p, a, same) = written_file os fresh v none after (ground (arith, d, h)) in
              rw a (
                ap (λ x. (x, some bytes))
                  (read_from-print validate later v bytes reads r p (ground (arith, same, valid))))
        ]

-- a device id of 32 hex digits is valid
new_device-IsValid :
    (uuid : Text) (now : DateTime)
    → byte_len uuid ≡ 32
    → all is_ascii_hexdigit (as_bytes uuid) ≡ true
    → validate_device (new_device uuid now) ≡ ok tt
unfolding validate_device validate_device_id new_device new_device_id strip_prefix text
new_device-IsValid uuid now n hex = ground (arith, n, hex)

-- After `DeviceFile::create_or_load` has returned a device, with 32 hex digits from the UUID generator,
-- every later call that the system lets read returns the same device, whatever is generated then, and
-- leaves the file as it is; where serde reads back what it writes.
pub create_or_load_device_stable :
    (codec : FileCodec DeviceFile)
    → (state : LocalStateDir) (os later : Refusals) (uuid other : Text) (now next : DateTime)
      (device : DeviceFile) (file after : File)
    → ReadsBack codec device
    → later.read ≡ none
    → byte_len uuid ≡ 32
    → all is_ascii_hexdigit (as_bytes uuid) ≡ true
    → create_or_load_device state os codec uuid now file ≡ (ok device, after)
    → create_or_load_device state later codec other next after ≡ (ok device, after)
create_or_load_device_stable codec state os later uuid other now next device file after reads r n
      hex h =
    create_or_load_after codec _ validate_device os state later (new_device uuid now)
      (new_device other next) device file after reads r (new_device-IsValid uuid now n hex) h
