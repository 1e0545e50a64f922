-- ===== src/Protocol/Stream/RoundTrip.antt =====
-- Frames come out of the stream as they were sent, however the stream was cut.
use mathlib.Core.List.{flatten}
use link_im.Prelude.{
  ℕ, zero, suc, ◌<◌, List, [], ◌∷◌, ◌++◌, ◌≡◌, ◌∙◌, refl, ap, arith, ltb, ◌==◌, length, take, drop,
  All, if◌then◌else◌, le→ltb, ==_refl, take-append_length, drop-append_length,
}
use link_im.Prelude.Bytes.{Bytes}
use link_im.Protocol.Frame.{
  Frame, Error, Result, ok, err, body_too_large, unexpected_eof, max_body_len, header_len, body_len,
  frame_from_header, put_header, IsFrame,
}
use link_im.Protocol.Frame.RoundTrip.{body_len-put_header, frame_from_header-put_header}
use link_im.Protocol.Stream.{Reader, read_full, is_eof, short_read, read_body, read_frame, read_all}
use link_im.Protocol.Stream.Chunks.{read_full-take, read_full-drop}

-- The same reading from the whole text of a stream that ends with `end`.
body_of_text : Bytes → Bytes → Error → Result Frame × Bytes
body_of_text header text end =
    if ltb max_body_len (body_len header)
    then (err body_too_large, text)
    else if body_len header == 0
    then (ok (frame_from_header header []), text)
    else if length (take (body_len header) text) == body_len header
    then (ok (frame_from_header header (take (body_len header) text)), drop (body_len header) text)
    else (
      err (is_eof (short_read (take (body_len header) text) end) unexpected_eof),
      drop (body_len header) text,
    )

pub frame_of_text : Bytes → Error → Result Frame × Bytes
frame_of_text text end =
    if length (take header_len text) == header_len
    then body_of_text (take header_len text) (drop header_len text) end
    else (err (short_read (take header_len text) end), drop header_len text)

abbrev pub text_of : Result Frame × Reader → Result Frame × Bytes
text_of (x, r) = (x, flatten r.chunks)

read_body-body_of_text :
    (header : Bytes) (r : Reader)
    → text_of (read_body header r) ≡ body_of_text header (flatten r.chunks) r.end
unfolding read_body body_of_text
read_body-body_of_text header r =
    ground
      (arith, read_full-take (body_len header) r.chunks, read_full-drop (body_len header) r.chunks)

-- Reading a frame depends on the bytes of the stream and on its end, not on the cuts.
pub read_frame-frame_of_text :
    (r : Reader) → text_of (read_frame r) ≡ frame_of_text (flatten r.chunks) r.end
unfolding read_frame frame_of_text
read_frame-frame_of_text r = ground (
  arith,
  read_full-take 11 r.chunks,
  read_full-drop 11 r.chunks,
  read_body-body_of_text (read_full 11 r.chunks).0
      (record r { chunks = (read_full 11 r.chunks).1 }),
)

take-put_header : (f : Frame) (rest : Bytes) → take header_len (put_header f ++ rest) ≡ put_header f
unfolding put_header
take-put_header f rest = refl

drop-put_header : (f : Frame) (rest : Bytes) → drop header_len (put_header f ++ rest) ≡ rest
unfolding put_header
drop-put_header f rest = refl

length-put_header : (f : Frame) → length (put_header f) ≡ header_len
unfolding put_header
length-put_header f = refl

header-body_len : (f : Frame) → IsFrame f → body_len (put_header f) ≡ length f.body
unfolding put_header
header-body_len f v = body_len-put_header f [] (omega (arith, v.short))

header-frame : (f : Frame) → IsFrame f → frame_from_header (put_header f) f.body ≡ f
unfolding put_header
header-frame f v = frame_from_header-put_header f [] v

empty_body :
    (f : Frame) (h body rest : Bytes)
    → frame_from_header h body ≡ f
    → ◌≡◌ {A = Result Frame × Bytes}
        (if length body == 0 then (ok (frame_from_header h []), body ++ rest) else (ok f, rest))
        (ok f, rest)
empty_body f h [] rest e = λ i. (ok (e i), rest)
empty_body f h (b ∷ bs) rest e = ground arith

frame_of_body :
    (f : Frame) (rest : Bytes) (end : Error)
    → IsFrame f
    → body_of_text (put_header f) (f.body ++ rest) end ≡ (ok f, rest)
unfolding body_of_text
frame_of_body f rest end v =
    rw
      (
        header-body_len f v,
        le→ltb max_body_len (length f.body) v.short,
        take-append_length f.body rest,
        drop-append_length f.body rest,
        ==_refl (length f.body),
        header-frame f v,
      )
      (empty_body f (put_header f) f.body rest (header-frame f v))

frame_of_wire :
    (f : Frame) (rest : Bytes) (end : Error)
    → IsFrame f
    → frame_of_text (put_header f ++ (f.body ++ rest)) end ≡ (ok f, rest)
unfolding frame_of_text
frame_of_wire f rest end v =
    rw (take-put_header f (f.body ++ rest), drop-put_header f (f.body ++ rest), length-put_header f)
      (frame_of_body f rest end v)

-- The text of several frames in a row.
unfoldable pub wires : List Frame → Bytes
wires [] = []
wires (f ∷ fs) = put_header f ++ (f.body ++ wires fs)

-- One frame from a reader, by its text.
read_frame_wire :
    (f : Frame) (rest : Bytes) (r : Reader)
    → IsFrame f
    → flatten r.chunks ≡ put_header f ++ (f.body ++ rest)
    → text_of (read_frame r) ≡ (ok f, rest)
read_frame_wire f rest r v e =
    read_frame-frame_of_text r ∙ ap (λ t. frame_of_text t r.end) e ∙ frame_of_wire f rest r.end v

end-read_frame : (r : Reader) → (read_frame r).1.end ≡ r.end
unfolding read_frame read_body
end-read_frame r = ground arith

read_frame_end : (r : Reader) → flatten r.chunks ≡ [] → text_of (read_frame r) ≡ (err r.end, [])
read_frame_end r e =
    read_frame-frame_of_text r ∙ ap (λ t. frame_of_text t r.end) e ∙ (unfold frame_of_text in refl)

read_all_step :
    (fuel : ℕ) (r : Reader) {f : Frame}
    → (read_frame r).0 ≡ ok f
    → read_all (suc fuel) r
      ≡ (f ∷ (read_all fuel (read_frame r).1).0, (read_all fuel (read_frame r).1).1)
unfolding read_all
read_all_step fuel r h = rw h

read_all_stop :
    (fuel : ℕ) (r : Reader) {e : Error} → (read_frame r).0 ≡ err e → read_all (suc fuel) r ≡ ([], e)
unfolding read_all
read_all_stop fuel r h = rw h

-- Frames in range, sent one after the other, are read back, all of them and in order, from any
-- cutting of their bytes into chunks, and then the reader's own end is reported; one unit of fuel
-- more than there are frames is enough.
pub read_all-wires :
    (fs : List Frame) (fuel : ℕ) (r : Reader)
    → All IsFrame fs
    → length fs < fuel
    → flatten r.chunks ≡ wires fs
    → read_all fuel r ≡ (fs, r.end)
unfolding wires
read_all-wires fs zero r v n e = absurd (omega arith)
read_all-wires [] (suc fuel) r v n e = read_all_stop fuel r (ap (λ p. p.0) (read_frame_end r e))
read_all-wires (f ∷ fs) (suc fuel) r (vf, vs) n e =
    let one = read_frame_wire f (wires fs) r vf e in
    let more = read_all-wires fs fuel (read_frame r).1 vs (omega arith) (ap (λ p. p.1) one) in
    rw (read_all_step fuel r (ap (λ p. p.0) one), more, end-read_frame r)
