-- ===== src/Sockets/Delivery.antt =====
-- A write that reports the whole size has delivered the whole message.
use kierki_sik.Prelude.{
  ℕ, zero, suc, ◌≤◌, ◌≡◌, refl, ap, sym, ◌∙◌, subst, ◌⊎◌, inl, inr, List, [], ◌∷◌, ◌++◌,
  append_assoc, append-nil, Option, none, some, Bytes, length, arith, take, drop,
}
use kierki_sik.Prelude.Int.{ℤ, pos, negsuc}
use kierki_sik.Sockets.{write_loop, write_to_socket}

take-append-drop : (n : ℕ) (s : Bytes) → take n s ++ drop n s ≡ s
take-append-drop zero s = refl
take-append-drop (suc n) [] = refl
take-append-drop (suc n) (c ∷ s) = ap (λ l. c ∷ l) (take-append-drop n s)

-- A part of the text from its start.
abbrev pub IsStart : Bytes → Bytes → Type 0
IsStart out whole = (missing : Bytes) × (out ++ missing ≡ whole)

-- The outcome of the loop for a text of `size` bytes.
abbrev pub Outcome : Bytes → ℕ → Option (ℤ × Bytes) → Type 0
Outcome whole size none = Unit {0}
Outcome whole size (some (pos n, out)) =
    ((n ≡ size) × (out ≡ whole)) ⊎ ((n ≡ 0) × IsStart out whole)
Outcome whole size (some (negsuc n, out)) = IsStart out whole

write_loop-Outcome :
    (answers : List ℤ) (left done : Bytes) (size : ℕ)
    → Outcome (done ++ left) size (write_loop answers left done size)
unfolding write_loop
write_loop-Outcome answers [] done size = inl (refl, sym (append-nil done))
write_loop-Outcome [] (c ∷ left) done size = tt
write_loop-Outcome (negsuc n ∷ answers) (c ∷ left) done size = (c ∷ left, refl)
write_loop-Outcome (pos zero ∷ answers) (c ∷ left) done size = inr (refl, (c ∷ left, refl))
write_loop-Outcome (pos (suc n) ∷ answers) (c ∷ left) done size =
    subst (λ t. Outcome t size (write_loop answers (drop n left) (done ++ c ∷ take n left) size))
      (append_assoc done (c ∷ take n left) (drop n left)
        ∙ ap (λ l. done ++ c ∷ l) (take-append-drop n left))
      (write_loop-Outcome answers (drop n left) (done ++ c ∷ take n left) size)

length-drop : (n : ℕ) (s : Bytes) → length (drop n s) ≤ length s
length-drop zero s = omega arith
length-drop (suc n) [] = omega arith
length-drop (suc n) (c ∷ s) = omega (arith, length-drop n s)

-- Every answer but an end takes a byte at least, so as many answers as bytes end the loop.
write_loop_ends :
    (answers : List ℤ) (left done : Bytes) (size : ℕ)
    → length left ≤ length answers
    → (r : ℤ) × (out : Bytes) × (write_loop answers left done size ≡ some (r, out))
unfolding write_loop
write_loop_ends answers [] done size h = (pos size, done, refl)
write_loop_ends [] (c ∷ left) done size h = absurd (omega arith)
write_loop_ends (negsuc n ∷ answers) (c ∷ left) done size h = (negsuc n, done, refl)
write_loop_ends (pos zero ∷ answers) (c ∷ left) done size h = (pos 0, done, refl)
write_loop_ends (pos (suc n) ∷ answers) (c ∷ left) done size h =
    write_loop_ends answers (drop n left) (done ++ c ∷ take n left) size
      (omega (arith, length-drop n left))

-- However the kernel cuts a message up, as many answers as it has bytes end the loop. The result is
-- the message's size only if all of it went out, in order and once; otherwise the result is 0 or
-- negative, and what went out is the message's beginning.
pub write_to_socket-Outcome :
    (answers : List ℤ) (m : Bytes)
    → length m ≤ length answers
    → (r : ℤ) × (out : Bytes) × (write_to_socket answers m ≡ some (r, out))
      × Outcome m (length m) (some (r, out))
unfolding write_to_socket
write_to_socket-Outcome answers m h =
    let (r, out, e) = write_loop_ends answers m [] (length m) h in
    (r, out, e, subst (Outcome m (length m)) e (write_loop-Outcome answers m [] (length m)))
