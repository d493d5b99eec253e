-- ===== src/Examples/Keys.antt =====
-- A stand-in for BLAKE3 and Ed25519 (core/crypto) that can be evaluated: a checksum, and a signature
-- that repeats the public key and the checksum of the message.
use web4_v.Base.{
  ℕ, zero, suc, ◌+◌, ◌<◌, ◌≤◌, ◌*◌, ◌%◌, ◌^◌, ◌≡◌, refl, ap, [], ◌∷◌, ◌++◌, Bool, true, false, ◌&&◌,
  ◌==◌, ==_refl, take, length, length-append, All, arith,
}
use web4_v.Crypto.{Bytes, Primitives, IsSound, IsKey}
use web4_v.Model.Ids.Arrays.{array32, length-array32}

checksum : Bytes → ℕ
checksum [] = 7
checksum (b ∷ bs) = (b + 31 * checksum bs) % 2 ^ 256

to_bytes : Bytes → Bytes
to_bytes [] = []
to_bytes (b ∷ bs) = (b % 256) ∷ to_bytes bs

abbrev half_key : Bytes → Bytes
half_key k = to_bytes (take 32 k)

same_bytes : Bytes → Bytes → Bool
same_bytes [] [] = true
same_bytes [] (b ∷ bs) = false
same_bytes (a ∷ as') [] = false
same_bytes (a ∷ as') (b ∷ bs) = a == b && same_bytes as' bs

unfoldable pub toy : Primitives
unfolding checksum to_bytes same_bytes
toy = record {
  sum256 = checksum;
  new_key_from_seed = λ seed. seed ++ seed;
  public_part = half_key;
  ed25519_sign = λ k m. half_key k ++ array32 (checksum m);
  ed25519_verify = λ key m sig. same_bytes sig (key ++ array32 (checksum m));
}

checksum-lt : (m : Bytes) → checksum m < 2 ^ 256
unfolding checksum
checksum-lt [] = omega arith
checksum-lt (b ∷ bs) = omega arith

length-to_bytes : (bs : Bytes) → length (to_bytes bs) ≡ length bs
unfolding to_bytes
length-to_bytes [] = refl
length-to_bytes (b ∷ bs) = ap suc (length-to_bytes bs)

to_bytes-small : (bs : Bytes) → All (λ b. b < 256) (to_bytes bs)
unfolding to_bytes
to_bytes-small [] = tt
to_bytes-small (b ∷ bs) = (omega arith, to_bytes-small bs)

length-take : (n : ℕ) (bs : Bytes) → n ≤ length bs → length (take n bs) ≡ n
length-take zero bs h = refl
length-take (suc n) [] h = absurd (omega arith)
length-take (suc n) (b ∷ bs) h = ap suc (length-take n bs (omega arith))

same_bytes_refl : (bs : Bytes) → same_bytes bs bs ≡ true
unfolding same_bytes
same_bytes_refl [] = refl
same_bytes_refl (b ∷ bs) = rw (==_refl b) (same_bytes_refl bs)

key_size : (k : Bytes) → length k ≡ 64 → length (half_key k) ≡ 32
key_size k h = omega (arith, length-to_bytes (take 32 k), length-take 32 k (omega arith))

pub toy-IsSound : IsSound toy
unfolding toy
toy-IsSound = record {
  digest_size = checksum-lt;
  public_size = key_size;
  public_bytes = λ k. to_bytes-small (take 32 k);
  signature_size = λ k m h. omega (
    arith,
    length-append (half_key k) (array32 (checksum m)),
    length-array32 (checksum m),
    key_size k h,
  );
  verifies = λ seed m h. same_bytes_refl (half_key (seed ++ seed) ++ array32 (checksum m));
}

pub toy-IsKey : (seed : Bytes) → length seed ≡ 32 → IsKey toy (seed ++ seed)
unfolding toy
toy-IsKey seed h = record { seed = seed; seed_size = h; made = refl }
