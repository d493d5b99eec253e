-- ===== src/Model/Ids/Arrays.antt =====
-- The 32 bytes of an ID (`hashBytes`, `NodeID.Bytes`), and the ID of 32 bytes.
use web4_v.Base.{
  ℕ, zero, suc, ◌+◌, ◌*◌, ◌/◌, ◌%◌, ◌^◌, ◌<◌, ◌≡◌, refl, ap, List, [], ◌∷◌, arith, length, All,
}

le_bytes : ℕ → ℕ → List ℕ
le_bytes zero n = []
le_bytes (suc k) n = (n % 256) ∷ le_bytes k (n / 256)

unfoldable pub array32 : ℕ → List ℕ
unfolding le_bytes
array32 n = le_bytes 32 n

unfoldable pub of_bytes : List ℕ → ℕ
of_bytes [] = 0
of_bytes (b ∷ bs) = b + 256 * of_bytes bs

length-le_bytes : (k n : ℕ) → length (le_bytes k n) ≡ k
unfolding le_bytes
length-le_bytes zero n = refl
length-le_bytes (suc k) n = ap suc (length-le_bytes k (n / 256))

pub length-array32 : (n : ℕ) → length (array32 n) ≡ 32
unfolding array32
length-array32 n = length-le_bytes 32 n

le_bytes-inj : (k n m : ℕ) → n < 256 ^ k → m < 256 ^ k → le_bytes k n ≡ le_bytes k m → n ≡ m
unfolding le_bytes
le_bytes-inj zero n m hn hm e = omega arith
le_bytes-inj (suc k) n m hn hm e =
    ground (arith, le_bytes-inj k (n / 256) (m / 256) (omega arith) (omega arith))

pub array32-inj : (n m : ℕ) → n < 2 ^ 256 → m < 2 ^ 256 → array32 n ≡ array32 m → n ≡ m
unfolding array32
array32-inj n m hn hm e = le_bytes-inj 32 n m hn hm e

le_bytes-of_bytes : (bs : List ℕ) → All (λ b. b < 256) bs → le_bytes (length bs) (of_bytes bs) ≡ bs
unfolding le_bytes of_bytes
le_bytes-of_bytes [] h = refl
le_bytes-of_bytes (b ∷ bs) h = ground (arith, le_bytes-of_bytes bs h.1)

-- The ID of 32 bytes has these bytes.
pub array32-of_bytes :
    (bs : List ℕ) → All (λ b. b < 256) bs → length bs ≡ 32 → array32 (of_bytes bs) ≡ bs
unfolding array32
array32-of_bytes bs h e = ground (arith, le_bytes-of_bytes bs h)
