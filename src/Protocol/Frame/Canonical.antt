-- ===== src/Protocol/Frame/Canonical.antt =====
-- Decoding accepts nothing but encodings: the wire form of a frame is unique.
use link_im.Prelude.{
  ℕ, ◌-◌, ◌%◌, ◌^◌, ◌<◌, ◌≤◌, [], ◌∷◌, ◌++◌, ◌≡◌, ◌∙◌, sym, ap, subst, length, take, drop, All,
  arith, take-append-drop, length-drop, take_all, le→ltb,
}
use link_im.Prelude.Bytes.{Bytes}
use link_im.Protocol.Frame.{
  Frame, ok, max_body_len, header_len, put_uint16, put_uint32, big_endian, put_header, encode,
  body_len, frame_from_header, decode, IsByte, IsFrame,
}

-- The three tests of a successful decoding, and the frame that is built.
pub decode-ok :
    (bs : Bytes) (f : Frame)
    → decode bs ≡ ok f
    → (11 ≤ length bs)
      × (body_len bs ≤ max_body_len)
      × ((length bs - 11) % 2 ^ 32 ≡ body_len bs)
      × (frame_from_header bs (take (body_len bs) (drop header_len bs)) ≡ f)
unfolding decode
decode-ok bs f h = ground arith

read_uint8-lt : (a : ℕ) → a < 256 → big_endian 0 (a ∷ []) < 256
unfolding big_endian
read_uint8-lt a h = omega arith

-- Writing the fields that were read from a header gives the header back.
put_header-frame_from_header :
    (bs body : Bytes)
    → 11 ≤ length bs
    → All IsByte bs
    → length body ≡ body_len bs
    → put_header (frame_from_header bs body) ≡ take 11 bs
unfolding put_header frame_from_header body_len
put_header-frame_from_header (a ∷ b ∷ c ∷ d ∷ e ∷ f ∷ g ∷ h ∷ i ∷ j ∷ k ∷ r) body n
      (ha, (hb, (hc, (hd, (he, (hf, (hg, (hh, (hi, (hj, (hk, hr))))))))))) l =
    unfold put_uint16 put_uint32 big_endian in ground arith
put_header-frame_from_header _ body n hs l = absurd (omega arith)

-- Read fields are within their widths.
frame_from_header-IsFrame :
    (bs body : Bytes)
    → 11 ≤ length bs
    → All IsByte bs
    → length body ≤ max_body_len
    → IsFrame (frame_from_header bs body)
unfolding frame_from_header
frame_from_header-IsFrame (a ∷ b ∷ c ∷ d ∷ e ∷ f ∷ g ∷ h) body n
      (ha, (hb, (hc, (hd, (he, (hf, (hg, hr))))))) l =
    unfold big_endian in omega arith
frame_from_header-IsFrame _ body n hs l = absurd (omega arith)

encode_wire : (f : Frame) → length f.body ≤ max_body_len → encode f ≡ ok (put_header f ++ f.body)
unfolding encode
encode_wire f h = rw (le→ltb max_body_len (length f.body) h)

wire_of :
    (bs body : Bytes)
    → length body ≤ max_body_len
    → encode (frame_from_header bs body) ≡ ok (put_header (frame_from_header bs body) ++ body)
unfolding frame_from_header
wire_of bs body h = encode_wire (frame_from_header bs body) h

encode-frame_from_header :
    (bs : Bytes)
    → 11 ≤ length bs
    → All IsByte bs
    → length (drop 11 bs) ≡ body_len bs
    → length (drop 11 bs) ≤ max_body_len
    → encode (frame_from_header bs (drop 11 bs)) ≡ ok bs
encode-frame_from_header bs n hs size fits =
    wire_of bs (drop 11 bs) fits
    ∙ ap (λ b. ok (b ++ drop 11 bs)) (put_header-frame_from_header bs (drop 11 bs) n hs size)
    ∙ ap ok (take-append-drop 11 bs)

-- If fewer than 2^32 bytes are decoded to a frame, then they are the encoding of that frame, and
-- its fields are in range.
pub encode-decode :
    (bs : Bytes) (f : Frame)
    → All IsByte bs
    → length bs < 2 ^ 32
    → decode bs ≡ ok f
    → (encode f ≡ ok bs) × IsFrame f
encode-decode bs f hs short h =
    let (n, l, m, e) = decode-ok bs f h in
    let size : length (drop header_len bs) ≡ body_len bs = omega (arith, length-drop 11 bs) in
    let body : take (body_len bs) (drop header_len bs) ≡ drop header_len bs =
      take_all _ _ (omega arith) in
    let whole : frame_from_header bs (drop header_len bs) ≡ f =
      ap (λ b. frame_from_header bs b) (sym body) ∙ e in
    let fits : length (drop header_len bs) ≤ max_body_len = omega arith in
    subst (λ g. (encode g ≡ ok bs) × IsFrame g) whole
      (encode-frame_from_header bs n hs size fits, frame_from_header-IsFrame bs _ n hs fits)
