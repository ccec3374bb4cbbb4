-- ===== src/CmdArgs/Order.antt =====
-- Which lists of arguments the client's loop takes, and how it sorts them.
use kierki_sik.Prelude.{
  ◌≡◌, ◌⊎◌, inl, inr, refl, List, [], ◌∷◌, map, Bool, true, false, not, ◌||◌, ◌&&◌, Option, none,
  some, Bytes, if◌then◌else◌, drop, Bool-cases,
}
use kierki_sik.Points.{◌>>=◌}
use kierki_sik.CmdArgs.{is_ip, is_seat, is_option, Words, scan_client}

abbrev pub is_flag : Bytes → Bool
is_flag arg = is_ip arg || is_seat arg

-- The words of a list that pass a test, in order.
abbrev pub only : (Bytes → Bool) → List Bytes → List Bytes
only f [] = []
only f (x ∷ xs) = if f x then x ∷ only f xs else only f xs

-- Each word that is no option stands directly behind an option that is no flag; `b` says whether the
-- list itself stands behind one.
abbrev pub WellPlaced : Bool → List Bytes → Type 0
WellPlaced b [] = Unit {0}
WellPlaced b (x ∷ xs) =
    if is_flag x
    then WellPlaced false xs
    else if is_option x
    then WellPlaced true xs
    else (b ≡ true) × WellPlaced false xs

abbrev pub sorted : List Bytes → Words
sorted args = record {
  ip_order = only is_ip args;
  seat_order = map (drop 1) (only (λ x. not (is_ip x) && is_seat x) args);
  manual_args = only (λ x. not (is_flag x)) args;
}

-- The outcome `o` of the loop on words that are well placed if `W`, with the value `t`.
abbrev Sorts : Type 0 → Option Words → Words → Type 0
Sorts W o t = (W × (o ≡ some t)) ⊎ ((¬ W) × (o ≡ none))

keep :
    (f : Words → Words) {W : Type 0} {o : Option Words} {t : Words}
    → Sorts W o t
    → Sorts W (o >>= λ w. some (f w)) (f t)
keep f (inl (h, e)) = inl (h, rw e refl)
keep f (inr (h, e)) = inr (h, rw e refl)

stray :
    (b : Bool) {W : Type 0} {o : Option Words} {t : Words}
    → Sorts W o t
    → Sorts ((b ≡ true) × W) (if b then o else none) t
stray true (inl (h, e)) = inl ((refl, h), e)
stray true (inr (h, e)) = inr ((λ p. h p.1), e)
stray false s = inr ((λ p. cc p.0), refl)

-- The loop over the client's arguments throws just when a word that is no option does not stand
-- directly behind an option that is no flag, so also when a flag stands between an option and its
-- value; otherwise it sorts the words into IP versions, seats and the rest, each in their order.
pub scan_client-sorted :
    (args : List Bytes) (b : Bool)
    → (WellPlaced b args × (scan_client args b ≡ some (sorted args)))
      ⊎ ((¬ WellPlaced b args) × (scan_client args b ≡ none))
unfolding scan_client
scan_client-sorted [] b = inl (tt, refl)
scan_client-sorted (x ∷ xs) b = elim (Bool-cases (is_ip x)) [
  | inl ip ↦
      rw ip (keep (λ w. record w { ip_order = x ∷ w.ip_order }) (scan_client-sorted xs false))
  | inr nip ↦ elim (Bool-cases (is_seat x)) [
    | inl seat ↦
        rw (nip, seat)
          (keep (λ w. record w { seat_order = drop 1 x ∷ w.seat_order })
            (scan_client-sorted xs false))
    | inr ns ↦ elim (Bool-cases (is_option x)) [
      | inl o ↦
          rw (nip, ns, o)
            (keep (λ w. record w { manual_args = x ∷ w.manual_args }) (scan_client-sorted xs true))
      | inr no_o ↦
          rw (nip, ns, no_o)
            (stray b (
              keep (λ w. record w { manual_args = x ∷ w.manual_args })
                (scan_client-sorted xs false)))
    ]
  ]
]
