-- ===== src/Sockets/Stream.antt =====
-- Several messages of the protocol on one connection: what `senders::send_*` puts on the socket is
-- taken off it again, message by message.
use kierki_sik.Prelude.{
  ℕ, zero, suc, ◌≡◌, refl, ap, sym, ◌∙◌, List, [], ◌∷◌, ◌++◌, append_assoc, map, some, none, Option,
  Bytes, length, length-append, All, arith,
}
use mathlib.Core.Path.{ap₂}
use mathlib.Core.List.{map-append}
use kierki_sik.Prelude.Int.{pos}
use kierki_sik.Messages.{delimeter, concat}
use kierki_sik.Sockets.{Read, byte, read_from_socket}
use kierki_sik.Sockets.Framing.{read_from_socket-message}
use kierki_sik.Messages.Bounds.{Message, IsSound, text, Line, text-Line}

-- `n` calls of `read_from_socket` that each return a message.
unfoldable pub read_times : ℕ → List Read → Option (List Bytes × List Read)
read_times zero rs = some ([], rs)
read_times (suc n) rs = elim (read_from_socket rs) [
  | some (pos (suc size), buffer, rest) ↦ elim (read_times n rest) [
    | some (buffers, left) ↦ some (buffer ∷ buffers, left)
    | none ↦ none
  ]
  | _ ↦ none
]

abbrev pub stream : List Message → Bytes
stream ms = concat (map text ms)

read_line :
    (s : Bytes) (l : Line s) (rest : List Read)
    → read_from_socket (map byte s ++ rest) ≡ some (pos (suc (suc (length l.body))), s, rest)
read_line s l rest =
    ap (λ t. read_from_socket (map byte t ++ rest)) l.ended
    ∙ read_from_socket-message l.body rest l.plain l.short
    ∙ ap₂ (λ n t. some (pos n, t, rest)) (omega (arith, length-append l.body delimeter))
        (sym l.ended)

read_times_next :
    (n k : ℕ) (s : Bytes) (ss : List Bytes) (rs rest left : List Read)
    → read_from_socket rs ≡ some (pos (suc k), s, rest)
    → read_times n rest ≡ some (ss, left)
    → read_times (suc n) rs ≡ some (s ∷ ss, left)
unfolding read_times
read_times_next n k s ss rs rest left e d = rw (e, read_times, d) refl

-- Messages that are sent one after the other come out as they were, in order: as many calls of
-- `read_from_socket` return exactly these messages, whatever follows them on the socket.
pub read_times-stream :
    (ms : List Message) (rest : List Read)
    → All IsSound ms
    → read_times (length ms) (map byte (stream ms) ++ rest) ≡ some (map text ms, rest)
unfolding read_times
read_times-stream [] rest h = refl
read_times-stream (m ∷ ms) rest h =
    read_times_next (length ms) (suc (length (text-Line m h.0).body)) (text m) (map text ms) _
      (map byte (stream ms) ++ rest) rest
      (ap read_from_socket (rw (map-append, append_assoc))
        ∙ read_line (text m) (text-Line m h.0) (map byte (stream ms) ++ rest))
      (read_times-stream ms rest h.1)
