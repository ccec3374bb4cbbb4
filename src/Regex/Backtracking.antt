-- ===== src/Regex/Backtracking.antt =====
-- The iterator over matches, and the engine that meets what is asked of Boost.
use native.Mathlib.Nat.{le_refl}
use kierki_sik.Prelude.{
  ℕ, zero, suc, ◌-◌, ◌<◌, ◌≤◌, ◌≡◌, ◌≢◌, inl, refl, ap, sym, ◌∙◌, List, [], ◌∷◌, ◌++◌, Bytes,
  if◌then◌else◌, arith, length, length-append, take, take_prefix, ltb, lt→ltb, subst,
}
use kierki_sik.Regex.{Re, Matches, Boost}
use kierki_sik.Regex.Engine.{rests, In, rests_sound, rests_complete, whole_match, whole_match_iff}

-- The match that leaves `t` of `c ∷ s`, if it is not empty, and what is found behind it.
report : Bytes → Bytes → List Bytes → List Bytes → List Bytes
report s t found skipped =
    if ltb (length t) (length s) then take (length s - length t) s ∷ found else skipped

scan : ℕ → Re → Bytes → List Bytes
unfolding report
scan zero r s = []
scan (suc f) r [] = []
scan (suc f) r (c ∷ s) = elim (rests r (c ∷ s)) [
  | [] ↦ scan f r s
  | t ∷ _ ↦ report (c ∷ s) t (scan f r t) (scan f r s)
]

scan_step :
    (f : ℕ) (r : Re) (c : ℕ) (s t : Bytes) (ts : List Bytes)
    → rests r (c ∷ s) ≡ t ∷ ts
    → scan (suc f) r (c ∷ s) ≡ report (c ∷ s) t (scan f r t) (scan f r s)
unfolding scan
scan_step f r c s t ts e = rw (e, scan)

scan_fuel : (f g : ℕ) (r : Re) (s : Bytes) → length s ≤ f → length s ≤ g → scan f r s ≡ scan g r s
unfolding scan
scan_fuel zero zero r s hf hg = refl
scan_fuel zero (suc g) r [] hf hg = refl
scan_fuel zero (suc g) r (c ∷ s) hf hg = absurd (omega arith)
scan_fuel (suc f) zero r [] hf hg = refl
scan_fuel (suc f) zero r (c ∷ s) hf hg = absurd (omega arith)
scan_fuel (suc f) (suc g) r [] hf hg = refl
scan_fuel (suc f) (suc g) r (c ∷ s) hf hg =
    cases (rests r (c ∷ s)) (scan_fuel f g r s (omega arith) (omega arith))
      (λ t h. scan_fuel f g r t (omega arith) (omega arith))
  where
    cases :
        (ts : List Bytes)
        → scan f r s ≡ scan g r s
        → ((t : Bytes) → length t < length (c ∷ s) → scan f r t ≡ scan g r t)
        → (elim ts as (λ _. List Bytes) [
          | [] ↦ scan f r s
          | t ∷ _ ↦ report (c ∷ s) t (scan f r t) (scan f r s)
        ])
          ≡ (elim ts as (λ _. List Bytes) [
            | [] ↦ scan g r s
            | t ∷ _ ↦ report (c ∷ s) t (scan g r t) (scan g r s)
          ])
    cases [] skip found = skip
    cases (t ∷ ts) skip found = ground (arith, found t)

find_all : Re → Bytes → List Bytes
unfolding scan
find_all r s = scan (length s) r s

no_rests :
    (r : Re) (s : Bytes) (ts : List Bytes)
    → ts ≡ rests r s
    → ((x y : Bytes) → s ≡ x ++ y → ¬ Matches r x)
    → rests r s ≡ []
no_rests r s [] e h = sym e
no_rests r s (t ∷ ts) e h =
    let (x, eq, m) = rests_sound r s t (rw (← e) (inl refl)) in absurd (h x t eq m)

find_all_skip :
    (r : Re) (c : ℕ) (s : Bytes)
    → ((x y : Bytes) → c ∷ s ≡ x ++ y → ¬ Matches r x)
    → find_all r (c ∷ s) ≡ find_all r s
unfolding find_all
find_all_skip r c s h = rw (no_rests r (c ∷ s) (rests r (c ∷ s)) refl h, scan)

append_cancel : (x s t : Bytes) → x ++ s ≡ x ++ t → s ≡ t
append_cancel [] s t e = e
append_cancel (c ∷ x) s t e = append_cancel x s t (cc)

take_front : (x s : Bytes) → take (length (x ++ s) - length s) (x ++ s) ≡ x
take_front x s = take_prefix x s (length (x ++ s) - length s) (omega (arith, length-append x s))

first_rest :
    (r : Re) (x s : Bytes) (ts : List Bytes)
    → rests r (x ++ s) ≡ ts
    → Matches r x
    → ((y z : Bytes) → x ++ s ≡ y ++ z → Matches r y → y ≡ x)
    → (us : List Bytes) × (rests r (x ++ s) ≡ s ∷ us)
first_rest r x s [] e m h = absurd (subst (In s) e (rests_complete r x s m))
first_rest r x s (t ∷ ts) e m h =
    let (y, eq, my) = rests_sound r (x ++ s) t (rw e (inl refl)) in
    let same_x : y ≡ x = h y t eq my in
    let same_rest : s ≡ t = append_cancel x s t (eq ∙ ap (λ l. l ++ t) same_x) in
    (ts, e ∙ ap (λ l. l ∷ ts) (sym same_rest))

report_match :
    (c : ℕ) (x s : Bytes) (found skipped : List Bytes)
    → report (c ∷ x ++ s) s found skipped ≡ (c ∷ x) ∷ found
unfolding report
report_match c x s found skipped =
    rw (lt→ltb (length s) (suc (length (x ++ s))) (omega (arith, length-append x s)))
      (ap (λ l. l ∷ found) (take_front (c ∷ x) s))

find_all_take :
    (r : Re) (x s : Bytes)
    → x ≢ []
    → Matches r x
    → ((y z : Bytes) → x ++ s ≡ y ++ z → Matches r y → y ≡ x)
    → find_all r (x ++ s) ≡ x ∷ find_all r s
unfolding find_all
find_all_take r [] s ne m h = absurd (ne refl)
find_all_take r (c ∷ x) s ne m h =
    let (us, e) = first_rest r (c ∷ x) s (rests r (c ∷ x ++ s)) refl m h in
    scan_step (length (x ++ s)) r c (x ++ s) s us e
    ∙ report_match c x s (scan (length (x ++ s)) r s) (scan (length (x ++ s)) r (x ++ s))
    ∙ ap (λ l. (c ∷ x) ∷ l)
        (scan_fuel (length (x ++ s)) (length s) r s (omega (arith, length-append x s))
          (le_refl (length s)))

pub backtracking : Boost
backtracking = record {
  regex_match = whole_match;
  regex_match_iff = whole_match_iff;
  iterate = find_all;
  iterate-nil = λ r h. unfold find_all in refl;
  iterate_skip = find_all_skip;
  iterate_take = find_all_take;
}
