-- ===== src/Protocol/Frame.antt =====
-- pkg/protocol/frame.go, Encode and Decode. Bytes are numbers; that they lie below 256, and the
-- other fields within their widths, is `IsFrame`.
pub mod RoundTrip
pub mod Canonical
use link_im.Prelude.{
  ℕ, ◌+◌, ◌-◌, ◌*◌, ◌/◌, ◌%◌, ◌^◌, ◌<◌, ◌≤◌, Bool, not, List, [], ◌∷◌, ◌++◌, ◌≡◌, refl, ltb, ◌==◌,
  if◌then◌else◌, length, take, drop, All,
}
use link_im.Prelude.Bytes.{Bytes, codes}

abbrev pub ver : ℕ
ver = 1

abbrev pub header_len : ℕ
header_len = 11

abbrev pub max_body_len : ℕ
max_body_len = 64 * 1024

pub record Frame : Type 0 where
  pub ver : ℕ
  pub cmd : ℕ
  pub seq : ℕ
  pub body : Bytes

-- The sentinels of errors.go, and those of package io that the reader passes on.
pub data Error : Type 0 where
  body_too_large malformed_frame eof unexpected_eof read_failed : Error

pub data Result {ℓ} (A : Type ℓ) : Type ℓ where
  ok : A → Result A
  err : Error → Result A

-- binary.BigEndian.PutUint16 and PutUint32, and the readers.
unfoldable pub put_uint16 : ℕ → Bytes
put_uint16 v = (v / 256 % 256) ∷ (v % 256) ∷ []

unfoldable pub put_uint32 : ℕ → Bytes
put_uint32 v = (v / 2 ^ 24 % 256) ∷ (v / 2 ^ 16 % 256) ∷ (v / 256 % 256) ∷ (v % 256) ∷ []

pub big_endian : ℕ → Bytes → ℕ
big_endian acc [] = acc
big_endian acc (b ∷ bs) = big_endian (acc * 256 + b) bs

-- data[from:to], within bounds
abbrev slice : Bytes → ℕ → ℕ → Bytes
slice bs from to = take (to - from) (drop from bs)

unfoldable pub put_header : Frame → Bytes
unfolding put_uint16 put_uint32
put_header f =
    f.ver ∷ (put_uint16 f.cmd ++ (put_uint32 f.seq ++ put_uint32 (length f.body % 2 ^ 32)))

unfoldable pub encode : Frame → Result Bytes
unfolding put_header
encode f =
    if ltb max_body_len (length f.body) then err body_too_large else ok (put_header f ++ f.body)

unfoldable pub body_len : Bytes → ℕ
unfolding big_endian
body_len header = big_endian 0 (slice header 7 11)

unfoldable pub frame_from_header : Bytes → Bytes → Frame
unfolding big_endian
frame_from_header header body = record {
  ver = big_endian 0 (slice header 0 1);
  cmd = big_endian 0 (slice header 1 3);
  seq = big_endian 0 (slice header 3 7);
  body = body;
}

-- The length test is on uint32, as in the source.
unfoldable pub decode : Bytes → Result Frame
decode bs =
    if ltb (length bs) header_len
    then err malformed_frame
    else if ltb max_body_len (body_len bs)
    then err body_too_large
    else if not ((length bs - header_len) % 2 ^ 32 == body_len bs)
    then err malformed_frame
    else ok (frame_from_header bs (take (body_len bs) (drop header_len bs)))

abbrev pub IsByte : ℕ → Type 0
IsByte b = b < 256

-- The ranges of the Go types, and the limit on the body.
pub record IsFrame (f : Frame) : Type 0 where
  pub ver : f.ver < 256
  pub cmd : f.cmd < 2 ^ 16
  pub seq : f.seq < 2 ^ 32
  pub short : length f.body ≤ max_body_len

abbrev ping : Frame
ping = record { ver = 1; cmd = 3; seq = 258; body = codes "hi" }

encode-ping : encode ping ≡ ok (1 ∷ 0 ∷ 3 ∷ 0 ∷ 0 ∷ 1 ∷ 2 ∷ 0 ∷ 0 ∷ 0 ∷ 2 ∷ 104 ∷ 105 ∷ [])
unfolding encode
encode-ping = refl

decode_short : decode (1 ∷ 0 ∷ 3 ∷ []) ≡ err malformed_frame
unfolding decode body_len frame_from_header
decode_short = refl

decode_trailing : decode (1 ∷ 0 ∷ 3 ∷ 0 ∷ 0 ∷ 1 ∷ 2 ∷ 0 ∷ 0 ∷ 0 ∷ 0 ∷ 9 ∷ []) ≡ err malformed_frame
unfolding decode body_len frame_from_header
decode_trailing = refl
