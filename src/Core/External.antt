-- ===== src/Core/External.antt =====
-- The ciphers that crates/aichan-core calls: HKDF-SHA256, ChaCha20-Poly1305 and X25519. Nothing is
-- assumed of them but their types; a theorem that needs `IsSecure` names it as a hypothesis.
use ai_channel.Prelude.{ℕ, ◌≡◌, List, length}
use ai_channel.Prelude.Result.{Result, ok}

pub record Ciphers : Type 0 where
  -- `Hkdf::<Sha256>::new(Some(salt), key_material)` and `expand(info, ..)` to so many bytes
  pub hkdf_sha256 : List ℕ → List ℕ → List ℕ → ℕ → Result (List ℕ)
  -- ChaCha20-Poly1305: key, nonce, associated data, text
  pub encrypt : List ℕ → List ℕ → List ℕ → List ℕ → Result (List ℕ)
  pub decrypt : List ℕ → List ℕ → List ℕ → List ℕ → Result (List ℕ)
  -- `PublicKey::from(&StaticSecret)` and `StaticSecret::diffie_hellman`
  pub x25519_public_key : List ℕ → List ℕ
  pub diffie_hellman : List ℕ → List ℕ → List ℕ

-- What is documented of them: what was encrypted decrypts with the same key, nonce and associated
-- data, and two parties agree on the shared secret.
pub record IsSecure (ciphers : Ciphers) : Type 0 where
  pub decrypt_encrypt :
      (key nonce aad message sealed : List ℕ)
      → ciphers.encrypt key nonce aad message ≡ ok sealed
      → ciphers.decrypt key nonce aad sealed ≡ ok message
  pub agree :
      (a b : List ℕ)
      → ciphers.diffie_hellman a (ciphers.x25519_public_key b)
        ≡ ciphers.diffie_hellman b (ciphers.x25519_public_key a)
  pub public_length : (k : List ℕ) → length (ciphers.x25519_public_key k) ≡ 32
