-- ===== src/Protocol/Transport/Tests.antt =====
-- Runs of the framing code, and its theorems at a concrete stream.
use pdf_platform.Common.Bytes.{u32_to_le}
use pdf_platform.Protocol.Transport.{
  ReadEvent, bytes, disconnected, encode_frame, failed, interrupted, read_frame_into, returned,
  try_next,
}
use pdf_platform.Protocol.Transport.Stream.{
  HasRead, read_frame_into_cut, read_frame_into_lem, try_next-encode_frame,
}
use pdf_platform.Common.{ℕ, List, [], arith, err, ok, refl, some, ◌∷◌, ◌≡◌}

abbrev hello : List ℕ
hello = 104 ∷ 105 ∷ []

-- One frame and the first byte of the next, cut in three reads with an interruption.
abbrev cut_stream : List ReadEvent
cut_stream =
    bytes (2 ∷ 0 ∷ []) ∷ failed interrupted ∷ bytes (0 ∷ 0 ∷ 104 ∷ []) ∷ bytes (105 ∷ 9 ∷ []) ∷ []

hello_framed : encode_frame hello ≡ ok (2 ∷ 0 ∷ 0 ∷ 0 ∷ 104 ∷ 105 ∷ [])
unfolding encode_frame u32_to_le
hello_framed = refl

read_frame_into_lem_example : HasRead hello (9 ∷ []) (read_frame_into cut_stream [])
read_frame_into_lem_example =
    read_frame_into_lem hello (9 ∷ []) [] cut_stream (omega arith) (tt, (tt, (tt, (tt, tt))))
      (unfold u32_to_le in refl)

read_frame_into_cut_example :
    (read_frame_into (bytes (2 ∷ 0 ∷ 0 ∷ 0 ∷ 104 ∷ []) ∷ bytes [] ∷ []) []).answer
    ≡ returned (err disconnected)
read_frame_into_cut_example =
    read_frame_into_cut hello (105 ∷ []) [] (bytes (2 ∷ 0 ∷ 0 ∷ 0 ∷ 104 ∷ []) ∷ []) [] (omega arith)
      (tt, tt) (unfold u32_to_le in refl) (omega arith)

try_next-encode_frame_example :
    try_next (2 ∷ 0 ∷ 0 ∷ 0 ∷ 104 ∷ 105 ∷ 7 ∷ []) ≡ (ok (some hello), 7 ∷ [])
try_next-encode_frame_example =
    try_next-encode_frame hello (2 ∷ 0 ∷ 0 ∷ 0 ∷ 104 ∷ 105 ∷ []) (7 ∷ []) hello_framed
