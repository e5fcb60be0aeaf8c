-- ===== src/Core/LocalState/Identities/Laws.antt =====
-- The identity of a directory stays the same from run to run.
use ai_channel.Prelude.{
  ℕ, Bool, ◌≡◌, ◌∙◌, sym, refl, ap, List, arith, length, none, some, inl, inr, true, false,
}
use ai_channel.Prelude.Text.{is_empty, trim}
use ai_channel.Prelude.Result.{ok, Result-cases}
use ai_channel.Protocol.External.{Crypto}
use ai_channel.Protocol.Laws.{IsSound}
use ai_channel.Core.External.{Ciphers, IsSecure}
use ai_channel.Core.MessageCrypto.{MessageKeyPair, generate}
use ai_channel.Core.Identity.{
  IdentityFile, message_key_pair, validate_identity, ensure_message_key_pair, new_identity,
}
use ai_channel.Core.Identity.Laws.{
  ensure_message_key_pair_lem, ensure_message_key_pair-IsValid, not_repaired, unchanged,
  new_identity-IsValid, new_identity-pair,
}
use ai_channel.Core.LocalState.{
  LocalStateDir, identity_path, File, Refusals, FileCodec, ensure_dirs, written, write_to,
}
use ai_channel.Core.LocalState.Laws.{
  ReadsBack, written_file, read_from-print, read_from_again, read_from-valid,
}
use ai_channel.Core.LocalState.Identities.{
  Fresh, read_identity, repaired, load_identity, create_new, create_identity,
  create_or_load_identity,
}

-- random values of the lengths that are asked for
pub record IsFresh (fresh : Fresh) : Type 0 where
  pub signing_length : length fresh.signing ≡ 32
  pub private_length : length fresh.private ≡ 32
  pub key_named : is_empty (trim fresh.key_id) ≡ false

module _ (crypto : Crypto) (sound : IsSound crypto) (ciphers : Ciphers) (secure : IsSecure ciphers)
    (codec : FileCodec IdentityFile) (state : LocalStateDir) (later : Refusals)
    (readable : later.read ≡ none) (next : Fresh) where
  -- an identity that is read, with a usable pair, is loaded as it is
  loaded :
      (identity : IdentityFile) (pair : MessageKeyPair) (bytes : List ℕ)
      → read_identity crypto ciphers codec state later (some bytes) ≡ ok identity
      → message_key_pair crypto ciphers identity ≡ ok pair
      → load_identity crypto ciphers codec state later next bytes ≡ (ok identity, some bytes)
  unfolding load_identity repaired
  loaded identity pair bytes r p =
      ground (
        arith,
        r,
        not_repaired crypto sound ciphers secure next.key_id next.private identity pair p,
      )

  loads_printed :
      (identity : IdentityFile) (pair : MessageKeyPair) (bytes : List ℕ)
      → ReadsBack codec identity
      → codec.print identity ≡ ok bytes
      → validate_identity crypto ciphers identity ≡ ok tt
      → message_key_pair crypto ciphers identity ≡ ok pair
      → load_identity crypto ciphers codec state later next bytes ≡ (ok identity, some bytes)
  loads_printed identity pair bytes reads e valid p =
      loaded identity pair bytes
        (read_from-print codec (identity_path state) (validate_identity crypto ciphers) later
          identity bytes reads readable e valid)
        p

  module _ (os : Refusals) (fresh : Fresh) (f : IsFresh fresh) (identity : IdentityFile)
      (reads : ReadsBack codec identity) (after appeared : File) where
    abbrev Again : Type 0
    Again =
        create_or_load_identity crypto ciphers codec state later next after appeared
        ≡ (ok identity, after)

    -- what was written is loaded
    again_written :
        (value : IdentityFile) (pair : MessageKeyPair) (file : File)
        → validate_identity crypto ciphers value ≡ ok tt
        → message_key_pair crypto ciphers value ≡ ok pair
        → written codec os (identity_path state) value file ≡ (ok identity, after)
        → Again
    unfolding create_or_load_identity
    again_written value pair file valid p h =
        let (bytes, e, a, same) =
          written_file codec (identity_path state) os value identity file after h in
        rw a (loads_printed identity pair bytes reads e (rw same valid) (rw same p))

    -- what is there after the repair is valid and has a usable pair
    after_repair :
        (bytes : List ℕ) (before value : IdentityFile) (repair : Bool)
        → read_identity crypto ciphers codec state os (some bytes) ≡ ok before
        → ensure_message_key_pair crypto ciphers fresh.key_id fresh.private before ≡ (repair, value)
        → (validate_identity crypto ciphers value ≡ ok tt)
          × (pair : MessageKeyPair) × (message_key_pair crypto ciphers value ≡ ok pair)
    after_repair bytes before value repair r e =
        let valid =
          read_from-valid codec (identity_path state) (validate_identity crypto ciphers) os
            (some bytes) before r in
        let kept =
          ensure_message_key_pair-IsValid crypto sound ciphers secure fresh.key_id fresh.private
            before f.private_length f.key_named valid in
        let (pair, usable, same) =
          ensure_message_key_pair_lem crypto sound ciphers secure fresh.key_id fresh.private before
            f.private_length f.key_named in
        let at : (ensure_message_key_pair crypto ciphers fresh.key_id fresh.private before).1
            ≡ value =
          ap (λ p. p.1) e in
        (rw (← at) kept, pair, rw (← at) usable)

    again_loaded :
        (bytes : List ℕ) (before value : IdentityFile) (repair : Bool)
        → read_identity crypto ciphers codec state os (some bytes) ≡ ok before
        → ensure_message_key_pair crypto ciphers fresh.key_id fresh.private before ≡ (repair, value)
        → load_identity crypto ciphers codec state os fresh bytes ≡ (ok identity, after)
        → Again
    unfolding load_identity repaired create_or_load_identity
    again_loaded bytes before value true r e h =
        let (valid, pair, p) = after_repair bytes before value true r e in
        again_written value pair (some bytes) valid p (ground (arith, r, e, h))
    again_loaded bytes before value false r e h =
        let (valid, pair, p) = after_repair bytes before value false r e in
        let same : value ≡ identity = ground (arith, r, e, h) in
        let left : after ≡ some bytes = ground (arith, r, e, h) in
        let kept : value ≡ before =
          unchanged crypto sound ciphers secure fresh.key_id fresh.private before value e in
        let again =
          read_from_again codec (identity_path state) (validate_identity crypto ciphers) os later
            bytes before readable r in
        rw left (
          loaded identity pair bytes (again ∙ ap ok (sym kept ∙ same))
            (ap (message_key_pair crypto ciphers) (sym same) ∙ p))

    again_created :
        create_identity crypto ciphers codec state os fresh none ≡ (ok identity, after) → Again
    unfolding create_identity create_new written write_to
    again_created h = elim (Result-cases (ensure_dirs state os)) [
      | inr (e, d) ↦ absurd (ground (arith, d, h))
      | inl (u, d) ↦
          again_written
            (new_identity crypto ciphers fresh.signing fresh.key_id fresh.private fresh.now)
            (generate crypto ciphers fresh.key_id fresh.private) none
            (new_identity-IsValid crypto sound ciphers secure fresh.signing fresh.key_id
              fresh.private fresh.now f.signing_length f.private_length f.key_named)
            (new_identity-pair crypto sound ciphers secure fresh.signing fresh.key_id fresh.private
              fresh.now f.private_length f.key_named)
            (ground (arith, d, h))
    ]

-- After `IdentityFile::create_or_load` has returned an identity, without another process having made
-- the file meanwhile, every later call that the system lets read returns the same identity, whatever
-- is generated then, and leaves the file as it is: also after a call that had to add a message key
-- pair; where serde reads back what it writes and the random values have the lengths asked for.
pub create_or_load_identity_stable :
    (crypto : Crypto)
    → IsSound crypto
    → (ciphers : Ciphers) → IsSecure ciphers
    → (codec : FileCodec IdentityFile) (state : LocalStateDir) (os later : Refusals)
      (fresh next : Fresh) (identity : IdentityFile) (file after appeared : File)
    → ReadsBack codec identity
    → later.read ≡ none
    → IsFresh fresh
    → create_or_load_identity crypto ciphers codec state os fresh file none ≡ (ok identity, after)
    → create_or_load_identity crypto ciphers codec state later next after appeared
      ≡ (ok identity, after)
unfolding create_or_load_identity
create_or_load_identity_stable crypto sound ciphers secure codec state os later fresh next identity
      none after appeared reads r f h =
    again_created crypto sound ciphers secure codec state later r next os fresh f identity reads
      after appeared h
create_or_load_identity_stable crypto sound ciphers secure codec state os later fresh next identity
      (some bytes) after appeared reads r f h =
    elim (Result-cases (read_identity crypto ciphers codec state os (some bytes))) [
      | inr (e, g) ↦ absurd (unfold load_identity in ground (arith, g, h))
      | inl (before, g) ↦
          again_loaded crypto sound ciphers secure codec state later r next os fresh f identity
            reads after appeared bytes before
            (ensure_message_key_pair crypto ciphers fresh.key_id fresh.private before).1
            (ensure_message_key_pair crypto ciphers fresh.key_id fresh.private before).0 g refl h
    ]
