-- ===== src/Examples/Protocol.antt =====
-- A heartbeat frame with a body of two bytes, on the wire and in a stream of two chunks.
use mathlib.Core.List.{flatten}
use link_im.Prelude.{[], ◌∷◌, ◌++◌, ◌≡◌, refl, arith, All, take, drop}
use link_im.Prelude.Bytes.{Bytes, codes}
use link_im.Protocol.Frame.{
  Frame, ok, eof, put_header, put_uint16, put_uint32, encode, decode, body_len, frame_from_header,
  IsByte, IsFrame,
}
use link_im.Protocol.Frame.Canonical.{encode-decode}
use link_im.Protocol.Stream.{Reader, read_all}
use link_im.Protocol.Stream.RoundTrip.{wires, read_all-wires}

abbrev hi : Frame
hi = record { ver = 1; cmd = 3; seq = 258; body = codes "hi" }

hi-IsFrame : IsFrame hi
hi-IsFrame = record { ver = omega arith; cmd = omega arith; seq = omega arith; short = omega arith }

abbrev hi_wire : Bytes
hi_wire = 1 ∷ 0 ∷ 3 ∷ 0 ∷ 0 ∷ 1 ∷ 2 ∷ 0 ∷ 0 ∷ 0 ∷ 2 ∷ 104 ∷ 105 ∷ []

hi_decoded : decode hi_wire ≡ ok hi
unfolding decode body_len frame_from_header
hi_decoded = refl

hi_wire-IsByte : All IsByte hi_wire
hi_wire-IsByte = (
  omega arith,
  (
    omega arith,
    (
      omega arith,
      (
        omega arith,
        (
          omega arith,
          (
            omega arith,
            (
              omega arith,
              (
                omega arith,
                (omega arith, (omega arith, (omega arith, (omega arith, (omega arith, tt))))),
              ),
            ),
          ),
        ),
      ),
    ),
  ),
)

encode-decode_example : (encode hi ≡ ok hi_wire) × IsFrame hi
encode-decode_example = encode-decode hi_wire hi hi_wire-IsByte (omega arith) hi_decoded

-- Two frames, cut within the first header and within the second.
abbrev two : Reader
two = record {
  chunks = take 5 hi_wire ∷ (drop 5 hi_wire ++ take 3 hi_wire) ∷ drop 3 hi_wire ∷ [];
  end = eof;
}

two_wires : flatten two.chunks ≡ wires (hi ∷ hi ∷ [])
unfolding wires put_header put_uint16 put_uint32 flatten
two_wires = refl

read_all-wires_example : read_all 3 two ≡ (hi ∷ hi ∷ [], eof)
read_all-wires_example =
    read_all-wires (hi ∷ hi ∷ []) 3 two (hi-IsFrame, (hi-IsFrame, tt)) (omega arith) two_wires
