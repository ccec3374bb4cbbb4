-- ===== src/Sockets/Framing.antt =====
-- One read takes exactly one message off the socket.
use kierki_sik.Prelude.{
  ℕ, suc, ◌+◌, ◌≤◌, ◌<◌, ◌≡◌, ◌≢◌, inl, inr, refl, ap, ◌∙◌, List, [], ◌∷◌, ◌++◌, append_assoc,
  append-nil, map, true, false, some, Bytes, length, length-append, All, arith, Bool-cases, le→ltb,
  lt→ltb, dec_lt,
}
use mathlib.Core.Path.{ap₂}
use mathlib.Core.List.{map-append}
use kierki_sik.Prelude.Int.{ℤ, pos, negsuc}
use kierki_sik.Messages.{delimeter}
use kierki_sik.Sockets.{
  Read, byte, end_of_file, failed, ends_with_delimeter, read_loop, read_from_socket,
  max_buffer_size,
}

-- A text with no carriage return.
abbrev pub IsPlain : Bytes → Type 0
IsPlain = All (λ c. c ≢ 13)

ends_plain : (s : Bytes) (c : ℕ) → IsPlain s → ends_with_delimeter (s ++ c ∷ []) ≡ false
unfolding ends_with_delimeter
ends_plain [] c h = refl
ends_plain (a ∷ []) c h = ground arith
ends_plain (a ∷ b ∷ s) c h = go s (ends_plain (b ∷ s) c h.1)
  where
    go :
        (s : Bytes)
        → ends_with_delimeter (b ∷ s ++ c ∷ []) ≡ false
        → ends_with_delimeter (a ∷ b ∷ s ++ c ∷ []) ≡ false
    go [] e = e
    go (d ∷ s) e = e

ends_delimeter : (s : Bytes) → ends_with_delimeter (s ++ delimeter) ≡ true
unfolding ends_with_delimeter
ends_delimeter [] = refl
ends_delimeter (a ∷ []) = refl
ends_delimeter (a ∷ b ∷ s) = go s (ends_delimeter (b ∷ s))
  where
    go :
        (s : Bytes)
        → ends_with_delimeter (b ∷ s ++ delimeter) ≡ true
        → ends_with_delimeter (a ∷ b ∷ s ++ delimeter) ≡ true
    go [] e = e
    go (d ∷ s) e = e

IsPlain-prefix : (s t : Bytes) → IsPlain (s ++ t) → IsPlain s
IsPlain-prefix [] t h = tt
IsPlain-prefix (c ∷ s) t h = (h.0, IsPlain-prefix s t h.1)

read_on :
    (rs : List Read) (c n : ℕ) (done : Bytes)
    → ends_with_delimeter (done ++ c ∷ []) ≡ false
    → n + 1 ≤ max_buffer_size
    → read_loop (byte c ∷ rs) n done ≡ read_loop rs (n + 1) (done ++ c ∷ [])
unfolding read_loop
read_on rs c n done e h = rw (e, le→ltb max_buffer_size (n + 1) h)

read_end :
    (rs : List Read) (c n : ℕ) (done : Bytes)
    → ends_with_delimeter (done ++ c ∷ []) ≡ true
    → read_loop (byte c ∷ rs) n done ≡ some (pos (length (done ++ c ∷ [])), done ++ c ∷ [], rs)
unfolding read_loop
read_end rs c n done e = rw e

read_full :
    (rs : List Read) (c n : ℕ) (done : Bytes)
    → ends_with_delimeter (done ++ c ∷ []) ≡ false
    → max_buffer_size < n + 1
    → read_loop (byte c ∷ rs) n done ≡ some (negsuc 0, done ++ c ∷ [], rs)
unfolding read_loop
read_full rs c n done e h = rw (e, lt→ltb max_buffer_size (n + 1) h)

-- A plain beginning is read up to what follows it.
read_plain :
    (s done : Bytes) (rest : List Read) (n : ℕ)
    → IsPlain (done ++ s)
    → n + length s ≤ max_buffer_size
    → read_loop (map byte s ++ rest) n done ≡ read_loop rest (n + length s) (done ++ s)
read_plain [] done rest n h l = rw (append-nil done) (ap (λ m. read_loop rest m done) (omega arith))
read_plain (c ∷ s) done rest n h l =
    read_on (map byte s ++ rest) c n done (ends_plain done c (IsPlain-prefix done (c ∷ s) h))
      (omega arith)
    ∙ read_plain s (done ++ c ∷ []) rest (n + 1) (rw (append_assoc done (c ∷ []) s) h) (omega arith)
    ∙ ap₂ (λ m b. read_loop rest m b) (omega arith) (append_assoc done (c ∷ []) s)

-- A message of at most 91 bytes whose only carriage return is in its line's end is read whole, and
-- what follows it stays on the socket.
pub read_from_socket-message :
    (s : Bytes) (rest : List Read)
    → IsPlain s
    → length s ≤ 89
    → read_from_socket (map byte (s ++ delimeter) ++ rest)
      ≡ some (pos (length (s ++ delimeter)), s ++ delimeter, rest)
unfolding read_from_socket
read_from_socket-message s rest h l =
    ap (λ rs. read_loop rs 0 []) (rw (map-append, append_assoc))
    ∙ read_plain s [] (map byte delimeter ++ rest) 0 h (omega arith)
    ∙ read_on (byte 10 ∷ rest) 13 (0 + length s) s (ends_plain s 13 h) (omega arith)
    ∙ read_end rest 10 (0 + length s + 1) (s ++ 13 ∷ [])
        (rw (append_assoc s (13 ∷ []) (10 ∷ [])) (ends_delimeter s))
    ∙ ap (λ b. some (pos (length b), b, rest)) (append_assoc s (13 ∷ []) (10 ∷ []))

-- The loop ends: 91 answers of the kernel are enough, and the buffer never holds more bytes.
read_bounded :
    (rs : List Read) (n : ℕ) (done : Bytes)
    → n ≤ max_buffer_size
    → n ≡ length done
    → max_buffer_size < n + length rs
    → (r : ℤ) × (buffer : Bytes) × (rest : List Read) × (read_loop rs n done
        ≡ some (r, buffer, rest))
      × (length buffer ≤ suc max_buffer_size)
read_bounded [] n done h e l = absurd (omega arith)
read_bounded (end_of_file ∷ rs) n done h e l =
    (pos 0, done, rs, unfold read_loop in refl, omega arith)
read_bounded (failed ∷ rs) n done h e l =
    (negsuc 0, done, rs, unfold read_loop in refl, omega arith)
read_bounded (byte c ∷ rs) n done h e l = elim (Bool-cases (ends_with_delimeter (done ++ c ∷ []))) [
  | inl t ↦ (
    pos (length (done ++ c ∷ [])),
    done ++ c ∷ [],
    rs,
    read_end rs c n done t,
    omega (arith, length-append done (c ∷ [])),
  )
  | inr f ↦ elim (dec_lt n max_buffer_size) [
    | yes more ↦
        let (r, buffer, rest, q, b) =
          read_bounded rs (n + 1) (done ++ c ∷ []) (omega arith)
            (omega (arith, length-append done (c ∷ []))) (omega arith) in
        (r, buffer, rest, read_on rs c n done f (omega arith) ∙ q, b)
    | no full ↦ (
      negsuc 0,
      done ++ c ∷ [],
      rs,
      read_full rs c n done f (omega arith),
      omega (arith, length-append done (c ∷ [])),
    )
  ]
]

-- Whatever the peer sends, 91 answers of the kernel end the loop, with at most 91 bytes in the
-- buffer.
pub read_from_socket_bounded :
    (rs : List Read)
    → max_buffer_size < length rs
    → (r : ℤ) × (buffer : Bytes) × (rest : List Read) × (read_from_socket rs
        ≡ some (r, buffer, rest))
      × (length buffer ≤ suc max_buffer_size)
unfolding read_from_socket
read_from_socket_bounded rs l = read_bounded rs 0 [] (omega arith) refl (omega arith)
