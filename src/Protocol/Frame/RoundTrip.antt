-- ===== src/Protocol/Frame/RoundTrip.antt =====
-- Decoding undoes encoding, and what is decoded is what was encoded.
use link_im.Prelude.{
  ℕ, ◌+◌, ◌-◌, ◌%◌, ◌^◌, ◌<◌, [], ◌∷◌, ◌++◌, ◌≡◌, ◌∙◌, refl, length, drop, arith, le→ltb, take_all,
  length-append, ==_refl,
}
use link_im.Prelude.Bytes.{Bytes}
use link_im.Protocol.Frame.{
  Frame, Error, ok, err, body_too_large, max_body_len, header_len, put_uint16, put_uint32,
  big_endian, put_header, encode, body_len, frame_from_header, decode, IsFrame,
}

read_uint8 : (v : ℕ) → big_endian 0 (v ∷ []) ≡ v
unfolding big_endian
read_uint8 v = omega arith

read_uint16 : (v : ℕ) → v < 2 ^ 16 → big_endian 0 (put_uint16 v) ≡ v
unfolding big_endian put_uint16
read_uint16 v h = omega arith

read_uint32 : (v : ℕ) → v < 2 ^ 32 → big_endian 0 (put_uint32 v) ≡ v
unfolding big_endian put_uint32
read_uint32 v h = omega arith

pub body_len-put_header :
    (f : Frame) (rest : Bytes)
    → length f.body < 2 ^ 32
    → body_len (put_header f ++ rest) ≡ length f.body
unfolding body_len put_header
body_len-put_header f rest h = read_uint32 (length f.body % 2 ^ 32) (omega arith) ∙ omega arith

pub frame_from_header-put_header :
    (f : Frame) (rest : Bytes) → IsFrame f → frame_from_header (put_header f ++ rest) f.body ≡ f
unfolding frame_from_header put_header
frame_from_header-put_header f rest v = λ i. record {
  ver = read_uint8 f.ver i;
  cmd = read_uint16 f.cmd v.cmd i;
  seq = read_uint32 f.seq v.seq i;
  body = f.body;
}

length-put_header : (f : Frame) → length (put_header f) ≡ 11
unfolding put_header
length-put_header f = refl

drop-put_header : (f : Frame) (rest : Bytes) → drop header_len (put_header f ++ rest) ≡ rest
unfolding put_header
drop-put_header f rest = refl

decode_wire : (f : Frame) → IsFrame f → decode (put_header f ++ f.body) ≡ ok f
unfolding decode
decode_wire f v =
    rw
      (
        length-append (put_header f) f.body,
        length-put_header f,
        body_len-put_header f f.body (omega (arith, v.short)),
        drop-put_header f f.body,
        take_all (length f.body) f.body (omega arith),
        frame_from_header-put_header f f.body v,
        le→ltb (11 + length f.body) 11 (omega arith),
        le→ltb max_body_len (length f.body) v.short,
        wire_length,
      )
      (rw (==_refl (length f.body)))
  where
    wire_length : (11 + length f.body - 11) % 2 ^ 32 ≡ length f.body
    wire_length = omega (arith, v.short)

pub decode-encode : (f : Frame) → IsFrame f → (bs : Bytes) × (encode f ≡ ok bs) × (decode bs ≡ ok f)
decode-encode f v = (
  put_header f ++ f.body,
  unfold encode in rw (le→ltb max_body_len (length f.body) v.short),
  decode_wire f v,
)

-- Encoding fails on exactly the bodies over the limit.
pub encode-err :
    (f : Frame) (e : Error)
    → encode f ≡ err e
    → (e ≡ body_too_large) × (max_body_len < length f.body)
unfolding encode
encode-err f e h = ground arith

pub write_uint16 :
    (a b : ℕ) → a < 256 → b < 256 → put_uint16 (big_endian 0 (a ∷ b ∷ [])) ≡ a ∷ b ∷ []
unfolding big_endian put_uint16
write_uint16 a b ha hb = ground arith

pub write_uint32 :
    (a b c d : ℕ)
    → a < 256
    → b < 256
    → c < 256
    → d < 256
    → put_uint32 (big_endian 0 (a ∷ b ∷ c ∷ d ∷ [])) ≡ a ∷ b ∷ c ∷ d ∷ []
unfolding big_endian put_uint32
write_uint32 a b c d ha hb hc hd = ground arith
