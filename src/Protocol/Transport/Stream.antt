-- ===== src/Protocol/Transport/Stream.antt =====
-- Frames survive the stream (core/protocol/src/transport.rs): however the bytes are cut into reads.
use native.Mathlib.Decide.{dec_lt}
use mathlib.Core.List.{append_assoc, append-nil}
use pdf_platform.Common.Bytes.{u32_from_le, u32_to_le, append_split}
use pdf_platform.Protocol.Transport.{
  decode_length, encode_frame, max_frame, try_next, ReadEvent, ReadState, bytes, failed,
  interrupted, read_frame_into, returned, unexpected_eof, on_read, TransportError, disconnected,
  frame_too_large,
}
use pdf_platform.Common.{
  ℕ, ◌%◌, ◌+◌, ◌++◌, ◌/◌, ◌<◌, List, [], ◌^◌, ap, arith, drop-append, length, length-append, none,
  ok, refl, some, take-append, ◌∷◌, ◌≡◌, ◌≤◌, All, ◌∙◌, Option, Result, err, subst, sym,
}

abbrev framed : List ℕ → List ℕ
framed body = u32_to_le (length body) ++ body

-- The frame of a body within the limit is its length and the body.
pub encode_frame_ok :
    (body : List ℕ) → length body ≤ max_frame → encode_frame body ≡ ok (framed body)
unfolding encode_frame
encode_frame_ok body h = ground (arith, ap (λ (n : ℕ). u32_to_le n ++ body) (small (length body) h))
  where
    small : (n : ℕ) → n ≤ max_frame → n % 2 ^ 32 ≡ n
    small n h = omega arith

decode_length_ok :
    (n : ℕ)
    → n ≤ max_frame
    → decode_length (n % 256) (n / 256 % 256) (n / 65536 % 256) (n / 16777216 % 256) ≡ ok n
unfolding decode_length u32_from_le
decode_length_ok n h = ground (arith)

-- A buffer that holds part of a frame is left alone.
try_next_partial :
    (body buf tail rest : List ℕ)
    → length body ≤ max_frame
    → buf ++ tail ≡ framed body ++ rest
    → length buf < 4 + length body
    → try_next buf ≡ (ok none, buf)
unfolding try_next u32_to_le
try_next_partial body [] tail rest fits e less = refl
try_next_partial body (a ∷ []) tail rest fits e less = refl
try_next_partial body (a ∷ b ∷ []) tail rest fits e less = refl
try_next_partial body (a ∷ b ∷ c ∷ []) tail rest fits e less = refl
try_next_partial body (a ∷ b ∷ c ∷ d ∷ buf) tail rest fits e less =
    ground (arith, decode_length_ok (length body) fits)

-- A buffer that holds a whole frame yields its body and keeps what follows.
try_next_whole :
    (body rest : List ℕ)
    → length body ≤ max_frame
    → try_next (framed body ++ rest) ≡ (ok (some body), rest)
unfolding try_next u32_to_le
try_next_whole body rest fits = ground (
  arith,
  decode_length_ok (length body) fits,
  take-append body rest,
  drop-append body rest,
  length-append body rest,
)

-- The bytes that a run of reads delivers.
abbrev pub delivered : List ReadEvent → List ℕ
delivered [] = []
delivered (bytes chunk ∷ es) = chunk ++ delivered es
delivered (failed kind ∷ es) = delivered es

-- Reads that deliver something or are interrupted: the peer stays connected.
abbrev pub IsOpen : ReadEvent → Type 0
IsOpen (bytes []) = ⊥
IsOpen (bytes (x ∷ xs)) = Unit {0}
IsOpen (failed interrupted) = Unit {0}
IsOpen (failed kind) = ⊥

-- `r` has answered with `body` and has consumed its frame, so that `rest` is still to come.
abbrev pub HasRead : List ℕ → List ℕ → ReadState → Type 0
HasRead body rest r = (r.answer ≡ returned (ok body)) × (r.decoder ++ delivered r.unread ≡ rest)

length-framed : (body : List ℕ) → length (framed body) ≡ 4 + length body
unfolding u32_to_le
length-framed body = omega arith

read_buffered :
    (body r : List ℕ) (es : List ReadEvent)
    → length body ≤ max_frame
    → HasRead body (r ++ delivered es) (read_frame_into es (framed body ++ r))
unfolding read_frame_into
read_buffered body r [] fits = ground (arith, try_next_whole body r fits)
read_buffered body r (e ∷ es) fits = ground (arith, try_next_whole body r fits)

read_whole :
    (body rest buf : List ℕ) (es : List ReadEvent)
    → length body ≤ max_frame
    → buf ++ delivered es ≡ framed body ++ rest
    → 4 + length body ≤ length buf
    → HasRead body rest (read_frame_into es buf)
read_whole body rest buf es fits e enough =
    let (r, front, back) =
      append_split (framed body) buf (delivered es) rest (omega (arith, length-framed body)) e in
    rw (front, ← back) (read_buffered body r es fits)

-- A round that finds only a part of a frame goes on with what it reads.
read_more :
    (body rest buf chunk : List ℕ) (e : ReadEvent) (es : List ReadEvent)
    → length body ≤ max_frame
    → (tail : List ℕ) → buf ++ tail ≡ framed body ++ rest
    → length buf < 4 + length body
    → on_read e ≡ ok chunk
    → read_frame_into (e ∷ es) buf ≡ read_frame_into es (buf ++ chunk)
unfolding read_frame_into
read_more body rest buf chunk e es fits tail h less step = ground (
  arith,
  try_next_partial body buf tail rest fits h less,
  step,
  ap (λ (l : List ℕ). read_frame_into es (l ++ chunk))
      (ap (λ (p : Result TransportError (Option (List ℕ)) × List ℕ). p.1)
        (try_next_partial body buf tail rest fits h less)),
)

-- However a stream that begins with the frame of `body` is cut into reads, and however often a read
-- is interrupted, `read_frame_into` returns `body` and keeps exactly the bytes behind the frame.
pub read_frame_into_lem :
    (body rest buf : List ℕ) (es : List ReadEvent)
    → length body ≤ max_frame
    → All IsOpen es
    → buf ++ delivered es ≡ framed body ++ rest
    → HasRead body rest (read_frame_into es buf)
unfolding on_read
read_frame_into_lem body rest buf [] fits live h = read_whole body rest buf [] fits h (
    omega (
      arith,
      length-framed body,
      ap (λ (l : List ℕ). length l) h,
      length-append buf [],
      length-append (framed body) rest,
    ))
read_frame_into_lem body rest buf (bytes [] ∷ es) fits live h = absurd live.0
read_frame_into_lem body rest buf (bytes (x ∷ xs) ∷ es) fits live h =
    elim (dec_lt (length buf) (4 + length body)) [
      | no enough ↦ read_whole body rest buf _ fits h (omega arith)
      | yes less ↦ rw (read_more body rest buf (x ∷ xs) (bytes (x ∷ xs)) es fits _ h less refl) (
          read_frame_into_lem body rest (buf ++ x ∷ xs) es fits live.1
            (append_assoc buf (x ∷ xs) (delivered es) ∙ h))
    ]
read_frame_into_lem body rest buf (failed interrupted ∷ es) fits live h =
    elim (dec_lt (length buf) (4 + length body)) [
      | no enough ↦ read_whole body rest buf _ fits h (omega arith)
      | yes less ↦ rw (read_more body rest buf [] (failed interrupted) es fits _ h less refl) (
          read_frame_into_lem body rest (buf ++ []) es fits live.1
            (append_assoc buf [] (delivered es) ∙ h))
    ]
read_frame_into_lem body rest buf (failed unexpected_eof ∷ es) fits live h = absurd live.0
read_frame_into_lem body rest buf (failed kind ∷ es) fits live h = absurd live.0

encode_frame_big :
    (body : List ℕ)
    → max_frame < length body
    → encode_frame body ≡ err (frame_too_large max_frame (length body % 2 ^ 32))
unfolding encode_frame
encode_frame_big body h = ground arith

whole :
    (body missing buf rest : List ℕ)
    → (buf ++ rest) ++ missing ≡ framed body
    → buf ++ (rest ++ missing) ≡ framed body ++ []
whole body missing buf rest h =
    sym (append_assoc buf rest missing) ∙ (h ∙ sym (append-nil (framed body)))

part :
    (body missing buf rest : List ℕ)
    → (buf ++ rest) ++ missing ≡ framed body
    → 0 < length missing
    → length buf < 4 + length body
part body missing buf rest h short = omega (
  arith,
  length-framed body,
  ap (λ (l : List ℕ). length l) h,
  length-append (buf ++ rest) missing,
  length-append buf rest,
)

cut_now :
    (body missing buf : List ℕ) (more : List ReadEvent)
    → length body ≤ max_frame
    → (buf ++ []) ++ missing ≡ framed body
    → 0 < length missing
    → (read_frame_into (bytes [] ∷ more) buf).answer ≡ returned (err disconnected)
unfolding read_frame_into on_read
cut_now body missing buf more fits h short = ground (
  arith,
  try_next_partial body buf ([] ++ missing) [] fits (whole body missing buf [] h)
      (part body missing buf [] h short),
)

-- What `encode_frame` accepts, `try_next` reads back, and it leaves the bytes behind the frame.
pub try_next-encode_frame :
    (body frame rest : List ℕ)
    → encode_frame body ≡ ok frame
    → try_next (frame ++ rest) ≡ (ok (some body), rest)
try_next-encode_frame body frame rest h = elim (dec_lt max_frame (length body)) [
  | yes big ↦ cc (encode_frame_big body big)
  | no fits ↦
      subst (λ f. try_next (f ++ rest) ≡ (ok (some body), rest)) {x = framed body}
        (cc (encode_frame_ok body (omega arith))) (try_next_whole body rest (omega arith))
]

-- A stream that ends inside a frame is an error of the transport, and never a shortened body.
pub read_frame_into_cut :
    (body missing buf : List ℕ) (es more : List ReadEvent)
    → length body ≤ max_frame
    → All IsOpen es
    → (buf ++ delivered es) ++ missing ≡ framed body
    → 0 < length missing
    → (read_frame_into (es ++ bytes [] ∷ more) buf).answer ≡ returned (err disconnected)
unfolding on_read
read_frame_into_cut body missing buf [] more fits live h short =
    cut_now body missing buf more fits h short
read_frame_into_cut body missing buf (bytes [] ∷ es) more fits live h short = absurd live.0
read_frame_into_cut body missing buf (bytes (x ∷ xs) ∷ es) more fits live h short =
    rw
      (read_more body [] buf (x ∷ xs) (bytes (x ∷ xs)) (es ++ bytes [] ∷ more) fits _
        (whole body missing buf _ h) (part body missing buf _ h short) refl)
      (read_frame_into_cut body missing (buf ++ x ∷ xs) es more fits live.1
        (rw (append_assoc buf (x ∷ xs) (delivered es)) h) short)
read_frame_into_cut body missing buf (failed interrupted ∷ es) more fits live h short =
    rw
      (read_more body [] buf [] (failed interrupted) (es ++ bytes [] ∷ more) fits _
        (whole body missing buf _ h) (part body missing buf _ h short) refl)
      (read_frame_into_cut body missing (buf ++ []) es more fits live.1
        (rw (append_assoc buf [] (delivered es)) h) short)
read_frame_into_cut body missing buf (failed unexpected_eof ∷ es) more fits live h short =
    absurd live.0
read_frame_into_cut body missing buf (failed kind ∷ es) more fits live h short = absurd live.0
