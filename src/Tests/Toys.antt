-- ===== src/Tests/Toys.antt =====
-- The concrete data of the tests of the client and of aichan-core: toy ciphers, and Alice's identity.
use ai_channel.Message.{MessageObject}
use ai_channel.Client.External.{ClientCodec}
use ai_channel.Prelude.{◌≡◌, refl, sym, false, none, some, []}
use ai_channel.Prelude.Text.{text, text_eq, starts_with, strip_prefix, trim, is_whitespace}
use ai_channel.Prelude.Result.{ok}
use ai_channel.Protocol.Verify.{derive_peer_id, decode_base64url_array}
use ai_channel.Core.External.{Ciphers, IsSecure}
use ai_channel.Core.Memory.{MemoryFile}
use ai_channel.Core.MessageCrypto.{MessageKeyPair, validate_key_pair, from_parts}
use ai_channel.Core.Identity.{
  IdentityFile, decode_key, check_message_keys, check_signing_keys, validate_identity,
}
use ai_channel.Core.LocalState.{LocalStateDir, Refusals, FileCodec}
use ai_channel.Tests.Samples.{zeros, toy_crypto, alice, publish_object}

-- Derives zeros, and encrypts a text to itself.
abbrev pub toy_ciphers : Ciphers
toy_ciphers = record {
  hkdf_sha256 = λ salt ikm info n. ok (zeros n);
  encrypt = λ key nonce aad message. ok message;
  decrypt = λ key nonce aad sealed. ok sealed;
  x25519_public_key = λ k. zeros 32;
  diffie_hellman = λ a b. [];
}

pub toy_ciphers-IsSecure : IsSecure toy_ciphers
toy_ciphers-IsSecure = record {
  decrypt_encrypt = λ key nonce aad message sealed h. sym h;
  agree = λ a b. refl;
  public_length = λ k. refl;
}

abbrev pub toy_keys : MessageKeyPair
toy_keys = record { key_id = text "key_1"; public_key = zeros 32; private_key = zeros 32 }

abbrev pub alice_identity : IdentityFile
alice_identity = record {
  version = 1;
  peer_id = alice;
  public_key = zeros 32;
  private_key = zeros 32;
  private_key_encrypted = false;
  message_key_id = some (text "key_1");
  message_public_key = some (zeros 32);
  message_private_key = some (zeros 32);
  created_at = 10;
}

pub toy_keys-IsValid : validate_key_pair toy_crypto toy_ciphers toy_keys ≡ ok tt
unfolding validate_key_pair decode_base64url_array text_eq trim is_whitespace text
toy_keys-IsValid = refl

pub alice_identity-IsValid : validate_identity toy_crypto toy_ciphers alice_identity ≡ ok tt
unfolding validate_identity check_signing_keys check_message_keys from_parts validate_key_pair
    decode_base64url_array decode_key derive_peer_id text_eq starts_with strip_prefix trim
    is_whitespace text
alice_identity-IsValid = refl

abbrev pub empty_memory : MemoryFile
empty_memory = record {
  version = 1;
  profile = record { nickname = none; self_description = none; preferences = [] };
  common_tags = [];
  discovered_peers = [];
  interactions = [];
  sync = record { last_sync_at = none; inbox_cursor = none; activity_cursor = none };
  updated_at = 10;
}

-- prints nothing and parses to one value
abbrev pub constant_codec : {A : Type 0} → A → FileCodec A
constant_codec value = record { parse = λ bytes. ok value; print = λ v. ok [] }

abbrev pub project : LocalStateDir
project = record { project_root = text "/p" }

abbrev pub no_refusals : Refusals
no_refusals = record {
  not_found = [];
  read = none;
  inbox_dir = none;
  messages_dir = none;
  write = none;
}

-- reads every message as one
abbrev pub toy_client : MessageObject → ClientCodec
toy_client object = record {
  from_publish_value = λ v. ok (publish_object (text "pub_1"));
  from_message_value = λ v. ok object;
  to_rfc3339 = λ t. [];
  print_message = λ o. ok [];
}
