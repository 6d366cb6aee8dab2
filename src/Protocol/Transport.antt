-- ===== src/Protocol/Transport.antt =====
-- core/protocol/src/transport.rs: framing of control messages and their reassembly from partial
-- reads. A byte is a number; the reader is the list of what its successive `read` calls return.
-- The sockets and pipes behind `Read` and `Write` are the operating system's, and not modelled.
pub mod Stream
mod Tests
use pdf_platform.Common.Bytes.{u32_from_le, u32_to_le}
use pdf_platform.Common.{
  ℕ, ◌%◌, ◌*◌, ◌+◌, ◌++◌, List, Option, Result, [], ◌^◌, drop, if◌then◌else◌, err, length, ltb,
  none, ok, some, take, ◌∷◌,
}

abbrev pub max_frame : ℕ
max_frame = 16 * 1024 * 1024

-- `io::ErrorKind`, with the kinds that the code tells apart.
pub data ErrorKind : Type 0 where
  unexpected_eof connection_reset broken_pipe connection_aborted : ErrorKind
  would_block timed_out interrupted other : ErrorKind

pub data TransportError : Type 0 where
  disconnected : TransportError
  timeout : TransportError
  frame_too_large : ℕ → ℕ → TransportError
  io : ErrorKind → TransportError

-- `From<io::Error>`
unfoldable pub from_io : ErrorKind → TransportError
from_io unexpected_eof = disconnected
from_io connection_reset = disconnected
from_io broken_pipe = disconnected
from_io connection_aborted = disconnected
from_io would_block = timeout
from_io timed_out = timeout
from_io interrupted = io interrupted
from_io other = io other

-- `got: len as u32` keeps the low 32 bits.
unfoldable pub encode_frame : List ℕ → Result TransportError (List ℕ)
encode_frame body =
    if ltb max_frame (length body)
    then err (frame_too_large max_frame (length body % 2 ^ 32))
    else ok (u32_to_le (length body % 2 ^ 32) ++ body)

unfoldable pub decode_length : ℕ → ℕ → ℕ → ℕ → Result TransportError ℕ
unfolding u32_from_le
decode_length a b c d =
    let len = u32_from_le a b c d in
    if ltb max_frame len then err (frame_too_large max_frame len) else ok len

-- The rest of `try_next` once the length is known.
take_frame : List ℕ → Result TransportError ℕ → Result TransportError (Option (List ℕ)) × List ℕ
take_frame buf (err e) = (err e, buf)
take_frame buf (ok len) =
    if ltb (length buf) (4 + len)
    then (ok none, buf)
    else (ok (some (take len (drop 4 buf))), drop (4 + len) buf)

-- `FrameDecoder::try_next`, from the buffer to the answer and the new buffer.
unfoldable pub try_next : List ℕ → Result TransportError (Option (List ℕ)) × List ℕ
unfolding take_frame
try_next (a ∷ b ∷ c ∷ d ∷ buf) = take_frame (a ∷ b ∷ c ∷ d ∷ buf) (decode_length a b c d)
try_next buf = (ok none, buf)

-- What one `read` returns: some bytes (none of them at the end of the stream) or an error.
pub data ReadEvent : Type 0 where
  bytes : List ℕ → ReadEvent
  failed : ErrorKind → ReadEvent

-- The answer of `read_frame_into`, or that it still waits for the next `read` to return.
pub data Reading : Type 0 where
  returned : Result TransportError (List ℕ) → Reading
  waiting : Reading

pub record ReadState : Type 0 where
  pub answer : Reading
  pub decoder : List ℕ
  pub unread : List ReadEvent

-- `if let Some(body) = decoder.try_next()? { return Ok(body) }`
answer_of : Result TransportError (Option (List ℕ)) → Option (Result TransportError (List ℕ))
answer_of (ok (some body)) = some (ok body)
answer_of (ok none) = none
answer_of (err e) = some (err e)

-- The `match r.read(..)`: what is pushed before the next round, or the error that is returned. An
-- interrupted read pushes nothing.
on_read : ReadEvent → Result TransportError (List ℕ)
unfolding from_io
on_read (bytes []) = err disconnected
on_read (bytes (x ∷ xs)) = ok (x ∷ xs)
on_read (failed interrupted) = ok []
on_read (failed kind) = err (from_io kind)

-- `read_frame_into`: one round of the loop for each event.
unfoldable pub read_frame_into : List ReadEvent → List ℕ → ReadState
unfolding answer_of on_read
read_frame_into [] buf = elim (answer_of (try_next buf).0) [
  | some r ↦ record { answer = returned r; decoder = (try_next buf).1; unread = [] }
  | none ↦ record { answer = waiting; decoder = (try_next buf).1; unread = [] }
]
read_frame_into (e ∷ es) buf = elim (answer_of (try_next buf).0) [
  | some r ↦ record { answer = returned r; decoder = (try_next buf).1; unread = e ∷ es }
  | none ↦ elim (on_read e) [
    | ok chunk ↦ read_frame_into es ((try_next buf).1 ++ chunk)
    | err x ↦ record { answer = returned (err x); decoder = (try_next buf).1; unread = es }
  ]
]
