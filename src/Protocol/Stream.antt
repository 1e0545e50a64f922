-- ===== src/Protocol/Stream.antt =====
-- pkg/protocol/frame.go, StreamReader, over the reader that comet hands it
-- (internal/comet/server.go, wsMessageReader): a reader delivers its bytes in chunks of any
-- sizes, and then one error for good.
pub mod Chunks
pub mod RoundTrip
use link_im.Prelude.{
  ℕ, zero, suc, ◌-◌, List, [], ◌∷◌, ◌++◌, ◌≡◌, refl, ltb, leb, ◌==◌, if◌then◌else◌, length, take,
  drop,
}
use link_im.Prelude.Bytes.{Bytes, codes}
use link_im.Protocol.Frame.{
  Frame, Error, Result, ok, err, body_too_large, eof, unexpected_eof, read_failed, max_body_len,
  header_len, body_len, frame_from_header,
}

pub record Reader : Type 0 where
  pub chunks : List Bytes
  pub end : Error

-- The loop of io.ReadFull over Read: a Read gives what is left of one chunk, or as much of it as
-- the buffer still takes.
unfoldable pub read_full : ℕ → List Bytes → Bytes × List Bytes
read_full n [] = ([], [])
read_full n (c ∷ cs) =
    let (bs, rest) = read_full (n - length c) cs in
    if leb n (length c) then (take n c, drop n c ∷ cs) else (c ++ bs, rest)

abbrev is_eof : Error → Error → Error
is_eof eof e = e
is_eof other e = other

-- io.ReadFull's error where the buffer was not filled: a clean end only if nothing was read.
abbrev short_read : Bytes → Error → Error
short_read [] end = end
short_read (b ∷ bs) end = is_eof end unexpected_eof

-- The body, after the header was consumed.
unfoldable pub read_body : Bytes → Reader → Result Frame × Reader
read_body header r =
    let n = body_len header in
    let (body, rest) = read_full n r.chunks in
    let r' = record r { chunks = rest } in
    if ltb max_body_len n
    then (err body_too_large, r)
    else if n == 0
    then (ok (frame_from_header header []), r)
    else if length body == n
    then (ok (frame_from_header header body), r')
    else (err (is_eof (short_read body r.end) unexpected_eof), r')

unfoldable pub read_frame : Reader → Result Frame × Reader
read_frame r =
    let (header, rest) = read_full header_len r.chunks in
    let r' = record r { chunks = rest } in
    if length header == header_len then read_body header r' else (err (short_read header r.end), r')

next_frames : List Frame × Error → Result Frame → List Frame × Error
next_frames rest (ok f) = (f ∷ rest.0, rest.1)
next_frames rest (err e) = ([], e)

-- The calls that readLoop makes until the first error; each frame takes one unit of fuel, and the
-- error another.
unfoldable pub read_all : ℕ → Reader → List Frame × Error
unfolding next_frames
read_all zero r = ([], read_failed)
read_all (suc fuel) r =
    let next = read_frame r in let rest = read_all fuel next.1 in next_frames rest next.0

abbrev wire : Bytes
wire = 1 ∷ 0 ∷ 3 ∷ 0 ∷ 0 ∷ 1 ∷ 2 ∷ 0 ∷ 0 ∷ 0 ∷ 2 ∷ 104 ∷ 105 ∷ []

half_packet :
    (read_frame (record { chunks = take 5 wire ∷ [] ∷ drop 5 wire ∷ []; end = eof })).0
    ≡ ok (record { ver = 1; cmd = 3; seq = 258; body = codes "hi" })
unfolding read_frame read_body read_full body_len frame_from_header
half_packet = refl

cut_short : (read_frame (record { chunks = take 12 wire ∷ []; end = eof })).0 ≡ err unexpected_eof
unfolding read_frame read_body read_full body_len frame_from_header
cut_short = refl
