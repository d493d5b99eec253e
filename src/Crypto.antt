-- ===== src/Crypto.antt =====
-- core/crypto: what the model package calls of it. BLAKE3 (github.com/zeebo/blake3) and Ed25519
-- are parameters; the length checks of sign.go are the repository's own.
use web4_v.Base.{
  ℕ, ◌≡◌, ◌^◌, ◌<◌, Bool, true, false, ◌||◌, not, List, Result, ok, ◌>>◌, fail_if, All, length,
  ◌==◌, if◌then◌else◌, bad_key_length, arith,
}

abbrev pub Bytes : Type 0
Bytes = List ℕ

-- A digest is the number below 2 ^ 256 that its 32 bytes spell.
pub record Primitives : Type 0 where
  pub sum256 : Bytes → ℕ
  pub new_key_from_seed : Bytes → Bytes
  pub public_part : Bytes → Bytes
  pub ed25519_sign : Bytes → Bytes → Bytes
  pub ed25519_verify : Bytes → Bytes → Bytes → Bool

-- What crypto/ed25519 and BLAKE3 document of their results, and that a signature verifies by a key
-- that `ed25519.NewKeyFromSeed` makes, which `ed25519.GenerateKey` calls.
pub record IsSound (c : Primitives) : Type 0 where
  pub digest_size : (m : Bytes) → c.sum256 m < 2 ^ 256
  pub public_size : (k : Bytes) → length k ≡ 64 → length (c.public_part k) ≡ 32
  pub public_bytes : (k : Bytes) → All (λ b. b < 256) (c.public_part k)
  pub signature_size : (k m : Bytes) → length k ≡ 64 → length (c.ed25519_sign k m) ≡ 64
  pub verifies :
      (seed m : Bytes)
      → length seed ≡ 32
      → let k = c.new_key_from_seed seed in
        c.ed25519_verify (c.public_part k) m (c.ed25519_sign k m) ≡ true

-- A private key that is made from a seed, with the public key that belongs to it. The length checks
-- of sign.go do not tell it from any other 64 bytes.
pub record IsKey (c : Primitives) (priv : Bytes) : Type 0 where
  pub seed : Bytes
  pub seed_size : length seed ≡ 32
  pub made : priv ≡ c.new_key_from_seed seed

module _ (c : Primitives) where
  -- `HashBytes`
  abbrev pub hash_bytes : Bytes → ℕ
  hash_bytes m = c.sum256 m

  -- `Sign`
  unfoldable pub sign : Bytes → Bytes → Result Bytes
  sign priv msg = do fail_if (not (length priv == 64)) bad_key_length; ok (c.ed25519_sign priv msg)

  -- `Verify`
  unfoldable pub verify : Bytes → Bytes → Bytes → Bool
  verify key msg sig =
      if not (length key == 32) || not (length sig == 64)
      then false
      else c.ed25519_verify key msg sig

  -- What `Sign` returns for a key that is made from a seed, `Verify` accepts under its public part.
  pub verify-sign :
      IsSound c
      → (priv msg sig : Bytes) → IsKey c priv
      → sign priv msg ≡ ok sig
      → verify (c.public_part priv) msg sig ≡ true
  unfolding sign verify
  verify-sign s priv msg sig k e =
      let accepted : c.ed25519_verify (c.public_part priv) msg (c.ed25519_sign priv msg) ≡ true =
        rw k.made (s.verifies k.seed msg k.seed_size) in
      ground (arith, s.public_size priv, s.signature_size priv msg)
