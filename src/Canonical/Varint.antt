-- ===== src/Canonical/Varint.antt =====
-- `writeUvarint` of core/canonical/encode.go, by encoding/binary's `PutUvarint`: seven bits a byte,
-- the lowest first, with the top bit set on every byte but the last.
use web4_v.Base.{
  ℕ, zero, suc, ◌+◌, ◌/◌, ◌%◌, ◌^◌, ◌<◌, ◌≤◌, ◌≡◌, List, [], ◌∷◌, ◌++◌, arith, ltb, length,
  if◌then◌else◌,
}

-- `byte(n) | 0x80` is `n % 128 + 128`, and `n >> 7` is `n / 128`.
put_uvarint : ℕ → ℕ → List ℕ
put_uvarint zero n = []
put_uvarint (suc fuel) n =
    let rest = put_uvarint fuel (n / 128) in if ltb n 128 then n ∷ [] else (n % 128 + 128) ∷ rest

-- A uint64 takes ten bytes at most, `MaxVarintLen64`.
unfoldable pub uvarint : ℕ → List ℕ
unfolding put_uvarint
uvarint n = put_uvarint 10 n

-- Two encodings with anything behind them are told apart by their numbers and what follows.
put_uvarint-inj :
    (fuel n m : ℕ) (r s : List ℕ)
    → n < 128 ^ fuel
    → m < 128 ^ fuel
    → put_uvarint fuel n ++ r ≡ put_uvarint fuel m ++ s
    → (n ≡ m) × (r ≡ s)
unfolding put_uvarint
put_uvarint-inj zero n m r s hn hm e = (omega arith, e)
put_uvarint-inj (suc fuel) n m r s hn hm e =
    ground (arith, put_uvarint-inj fuel (n / 128) (m / 128) r s (omega arith) (omega arith))

pub uvarint-inj :
    (n m : ℕ) (r s : List ℕ)
    → n < 2 ^ 64
    → m < 2 ^ 64
    → uvarint n ++ r ≡ uvarint m ++ s
    → (n ≡ m) × (r ≡ s)
unfolding uvarint
uvarint-inj n m r s hn hm e = put_uvarint-inj 10 n m r s (omega arith) (omega arith) e

length-put_uvarint : (fuel n : ℕ) → length (put_uvarint fuel n) ≤ fuel
unfolding put_uvarint
length-put_uvarint zero n = omega arith
length-put_uvarint (suc fuel) n = ground (arith, length-put_uvarint fuel (n / 128))

pub length-uvarint : (n : ℕ) → length (uvarint n) ≤ 10
unfolding uvarint
length-uvarint n = length-put_uvarint 10 n
