-- ===== src/Canonical.antt =====
-- core/canonical/encode.go: the byte encoding under every ID and signature. A buffer that is written
-- to is the bytes that are appended to it.
pub mod Varint
pub mod Supported
pub mod Injective
use web4_v.Base.{
  ℕ, ◌+◌, ◌-◌, ◌*◌, ◌%◌, ◌^◌, Bool, List, [], ◌∷◌, ◌++◌, Result, ok, err, ◌>>=◌, length, ltb, ◌==◌,
  if◌then◌else◌, unsupported_type,
}
use web4_v.Base.Int.{ℤ, pos, to_u64, ltb_ℤ}
use Varint.{uvarint}
use Prim.Native.Char.{code}
use Prim.Native.String.{String}

-- What reaches the type switch of `encodeValue`: every signed kind is an int64 there, every unsigned
-- kind a uint64, every array and every other slice a list. `other` is nil or a type with no case,
-- and a map whose keys are no strings is refused like it.
mutual
  pub data Any : Type 0 where
    str : List ℕ → Any
    bytes : List ℕ → Any
    int : ℤ → Any
    uint : ℕ → Any
    list : Items → Any
    map : Entries → Any
    other : Any

  pub data Items : Type 0 where
    nil : Items
    cons : Any → Items → Items

  pub data Entries : Type 0 where
    end : Entries
    entry : List ℕ → Any → Entries → Entries

-- The UTF-8 bytes of an ASCII literal.
abbrev pub ascii : String → List ℕ
ascii String.[] = []
ascii (String.◌∷◌ c s) = code c ∷ ascii s

abbrev pub count : Items → ℕ
count nil = 0
count (cons x xs) = count xs + 1

unfoldable pub encode_string : List ℕ → List ℕ
encode_string s = b's' ∷ uvarint (length s) ++ s

unfoldable pub encode_bytes : List ℕ → List ℕ
encode_bytes b = b'b' ∷ uvarint (length b) ++ b

-- `uint64(n<<1) ^ uint64(n>>63)`: the right operand is all ones for a negative n, and 0 otherwise;
-- to change every bit of u is to take it from 2 ^ 64 - 1.
abbrev pub zigzag : ℤ → ℕ
zigzag n =
    let shifted : ℕ = to_u64 n * 2 % 2 ^ 64 in
    if ltb_ℤ n (pos 0) then 2 ^ 64 - 1 - shifted else shifted

unfoldable pub encode_int : ℤ → List ℕ
encode_int n = b'i' ∷ uvarint (zigzag n)

unfoldable pub encode_uint : ℕ → List ℕ
encode_uint n = b'u' ∷ uvarint n

-- Go's order on strings, byte by byte.
unfoldable pub string_lt : List ℕ → List ℕ → Bool
string_lt [] [] = Bool.false
string_lt [] (b ∷ bs) = Bool.true
string_lt (a ∷ as') [] = Bool.false
string_lt (a ∷ as') (b ∷ bs) = if a == b then string_lt as' bs else ltb a b

-- `sort.Strings` on the keys, each with the encoding of its value.
place : List ℕ × Result (List ℕ) → List (List ℕ × Result (List ℕ)) → List (List ℕ × Result (List ℕ))
place e [] = e ∷ []
place e (f ∷ fs) = if string_lt e.0 f.0 then e ∷ f ∷ fs else f ∷ place e fs

sort_entries : List (List ℕ × Result (List ℕ)) → List (List ℕ × Result (List ℕ))
unfolding place string_lt
sort_entries [] = []
sort_entries (e ∷ es) = place e (sort_entries es)

write_entries : List (List ℕ × Result (List ℕ)) → Result (List ℕ)
write_entries [] = ok []
write_entries ((k, v) ∷ es) = do
  value ← v
  rest ← write_entries es
  ok (encode_string k ++ (value ++ rest))

unfoldable mutual
  unfolding sort_entries write_entries encode_string encode_bytes encode_int encode_uint

  pub encode_value : Any → Result (List ℕ)
  encode_value (str s) = ok (encode_string s)
  encode_value (bytes b) = ok (encode_bytes b)
  encode_value (int n) = ok (encode_int n)
  encode_value (uint n) = ok (encode_uint n)
  encode_value (list xs) = do items ← encode_items xs; ok (b'l' ∷ uvarint (count xs) ++ items)
  encode_value (map es) = do
    entries ← write_entries (sort_entries (encode_entries es))
    ok (b'm' ∷ uvarint (length (encode_entries es)) ++ entries)
  encode_value other = err unsupported_type

  pub encode_items : Items → Result (List ℕ)
  encode_items nil = ok []
  encode_items (cons x xs) = do first ← encode_value x; rest ← encode_items xs; ok (first ++ rest)

  pub encode_entries : Entries → List (List ℕ × Result (List ℕ))
  encode_entries end = []
  encode_entries (entry k v es) = (k, encode_value v) ∷ encode_entries es

-- `Field`
abbrev pub Field : Type 0
Field = List ℕ × Any

encode_each : List Field → Result (List ℕ)
unfolding encode_value
encode_each [] = ok []
encode_each ((name, value) ∷ fields) = do
  first ← encode_value value
  rest ← encode_each fields
  ok (encode_string name ++ (first ++ rest))

unfoldable pub encode_fields : List Field → Result (List ℕ)
unfolding encode_each
encode_fields fields = do body ← encode_each fields; ok (b'f' ∷ uvarint (length fields) ++ body)
