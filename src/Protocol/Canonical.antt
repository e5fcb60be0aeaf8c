-- ===== src/Protocol/Canonical.antt =====
-- `canonical_json_bytes` of crates/aichan-core/src/protocol.rs: objects with sorted keys, no floats.
use ai_channel.Prelude.{ℕ, List, ◌∷◌, ◌++◌, Bool, true, false, if◌then◌else◌}
use ai_channel.Prelude.Text.{Text, text, as_bytes}
use ai_channel.Prelude.Result.{Result, ok, err, ◌>>=◌, map_err}
use ai_channel.Json.{
  Number, float, Value, null, bool, number, string, array, object, Items, nil, cons, Fields, end,
  field, map_insert,
}
use ai_channel.Protocol.Types.{object_signature_domain}
use ai_channel.Protocol.External.{Codec}

-- `protocol_error`: the message with the prefix that `AichanError::InvalidProtocol` displays.
unfoldable pub protocol_error : Text → Text
protocol_error message = text "invalid protocol object: " ++ message

abbrev is_f64 : Number → Bool
is_f64 (float bits) = true
is_f64 _ = false

abbrev pub canonicalize_number : Number → Result Value
canonicalize_number n =
    if is_f64 n
    then err
        (protocol_error (text "floating point numbers are not allowed in signed protocol JSON"))
    else ok (number n)

unfoldable mutual
  -- The source sorts the entries and inserts them one by one into an empty map; here each entry is
  -- inserted into the map of the later ones. The keys of a map differ, so the result is the same
  -- sorted map, and every error is the same error.
  pub canonicalize_json_value : Value → Result Value
  canonicalize_json_value null = ok null
  canonicalize_json_value (bool b) = ok (bool b)
  canonicalize_json_value (number n) = canonicalize_number n
  canonicalize_json_value (string s) = ok (string s)
  canonicalize_json_value (array values) = do
    canonical ← canonicalize_items values
    ok (array canonical)
  canonicalize_json_value (object entries) = do
    sorted ← canonicalize_fields entries
    ok (object sorted)

  pub canonicalize_items : Items → Result Items
  canonicalize_items nil = ok nil
  canonicalize_items (cons v vs) = do
    w ← canonicalize_json_value v
    ws ← canonicalize_items vs
    ok (cons w ws)

  pub canonicalize_fields : Fields → Result Fields
  canonicalize_fields end = ok end
  canonicalize_fields (field k v fs) = do
    w ← canonicalize_json_value v
    rest ← canonicalize_fields fs
    ok (map_insert k w rest)

module _ (codec : Codec) where
  -- `value` is what serde made of the Rust value
  unfoldable pub canonical_json_bytes : Result Value → Result (List ℕ)
  unfolding canonicalize_json_value
  canonical_json_bytes value = do
    v ←
        map_err (λ source. protocol_error (text "cannot serialize protocol value: " ++ source))
          value
    canonical ← canonicalize_json_value v
    ok (codec.to_vec canonical)

  unfoldable pub object_signature_input : Result Value → Result (List ℕ)
  object_signature_input value = do
    canonical ← canonical_json_bytes value
    ok (as_bytes object_signature_domain ++ b'\n' ∷ canonical)
