-- ===== src/Transport.antt =====
-- core/transport/frame.go and limits.go: a payload behind a header of ten bytes.
pub mod RoundTrip
use web4_v.Base.{
  ℕ, ◌+◌, ◌*◌, ◌/◌, ◌%◌, ◌^◌, Bool, not, List, [], ◌∷◌, ◌++◌, Result, ok, err, ◌>>=◌, ◌>>◌, fail_if,
  ltb, ◌==◌, length, take, drop, same_bytes, empty_frame, frame_too_large, truncated_frame,
  bad_magic, unsupported_version, invalid_frame,
}
use web4_v.Canonical.{ascii}

abbrev pub frame_magic : List ℕ
frame_magic = ascii "W4M1"

abbrev pub frame_version : ℕ
frame_version = 1

abbrev pub max_frame_size : ℕ
max_frame_size = 2 ^ 20

abbrev pub frame_header_size : ℕ
frame_header_size = 10

-- `binary.BigEndian.PutUint16` and `PutUint32`, and their readers.
abbrev pub put_uint16 : ℕ → List ℕ
put_uint16 n = (n / 2 ^ 8 % 256) ∷ (n % 256) ∷ []

abbrev pub put_uint32 : ℕ → List ℕ
put_uint32 n = (n / 2 ^ 24 % 256) ∷ (n / 2 ^ 16 % 256) ∷ (n / 2 ^ 8 % 256) ∷ (n % 256) ∷ []

abbrev pub big_endian : ℕ → List ℕ → ℕ
big_endian acc [] = acc
big_endian acc (b ∷ bs) = big_endian (acc * 256 + b) bs

pub record FrameHeader : Type 0 where
  pub version : ℕ
  pub length_field : ℕ

-- `uint32(len(payload))` keeps the length, which is at most 2 ^ 20.
unfoldable pub encode_payload_frame : List ℕ → Result (List ℕ)
encode_payload_frame payload = do
  fail_if (length payload == 0) empty_frame
  fail_if (ltb max_frame_size (length payload)) frame_too_large
  ok (
      frame_magic
      ++ (put_uint16 frame_version ++ (put_uint32 (length payload % 2 ^ 32) ++ payload)))

unfoldable pub decode_frame_header : List ℕ → Result FrameHeader
decode_frame_header frame = do
  fail_if (ltb (length frame) frame_header_size) truncated_frame
  fail_if (not (same_bytes (take 4 frame) frame_magic)) bad_magic
  let version = big_endian 0 (take 2 (drop 4 frame))
  fail_if (not (version == frame_version)) unsupported_version
  let size = big_endian 0 (take 4 (drop 6 frame))
  fail_if (size == 0) empty_frame
  fail_if (ltb max_frame_size size) frame_too_large
  ok (record { version = version; length_field = size })

unfoldable pub decode_payload_frame : List ℕ → Result (List ℕ)
decode_payload_frame frame = do
  header ← decode_frame_header frame
  let want = frame_header_size + header.length_field
  fail_if (ltb (length frame) want) truncated_frame
  fail_if (ltb want (length frame)) invalid_frame
  ok (take header.length_field (drop frame_header_size frame))
