-- ===== src/Regex/Engine.antt =====
-- A backtracking engine that meets what is asked of Boost, so the assumptions can hold together.
use kierki_sik.Prelude.{
  ◌≡◌, ◌≢◌, ◌↔◌, ◌⊎◌, inl, inr, refl, ap, sym, ◌∙◌, List, [], ◌∷◌, ◌++◌, append_assoc, append-nil,
  Bool, true, false, Bytes, All, if◌then◌else◌, Bool-cases,
}
use kierki_sik.Regex.{Re, eps, cls, plus, seq, alt, has, Matches}

-- The texts that may remain behind a match at the start, the preferred one first.
plus_rests : Bytes → Bytes → List Bytes
plus_rests cs [] = []
plus_rests cs (c ∷ s) = if has c cs then plus_rests cs s ++ s ∷ [] else []

first_rests : Bytes → Bytes → List Bytes
first_rests cs [] = []
first_rests cs (c ∷ s) = if has c cs then s ∷ [] else []

each : (Bytes → List Bytes) → List Bytes → List Bytes
each f [] = []
each f (t ∷ ts) = f t ++ each f ts

pub rests : Re → Bytes → List Bytes
unfolding plus_rests first_rests each
rests eps s = s ∷ []
rests (cls cs) s = first_rests cs s
rests (plus cs) s = plus_rests cs s
rests (seq a b) s = each (rests b) (rests a s)
rests (alt a b) s = rests a s ++ rests b s

abbrev pub In : Bytes → List Bytes → Type 0
In t [] = ⊥
In t (u ∷ us) = (t ≡ u) ⊎ In t us

In-append : (t : Bytes) (us vs : List Bytes) → In t (us ++ vs) ↔ (In t us ⊎ In t vs)
In-append t [] vs = ((λ h. inr h), (λ h. elim h [ inl f ↦ absurd f | inr g ↦ g ]))
In-append t (u ∷ us) vs = (
  (λ h. elim h [
    | inl e ↦ inl (inl e)
    | inr g ↦ elim ((In-append t us vs).0 g) [ inl k ↦ inl (inr k) | inr k ↦ inr k ]
  ]),
  (λ h. elim h [
    | inl k ↦ elim k [ inl e ↦ inl e | inr g ↦ inr ((In-append t us vs).1 (inl g)) ]
    | inr k ↦ inr ((In-append t us vs).1 (inr k))
  ]),
)

In-each :
    (f : Bytes → List Bytes) (t : Bytes) (us : List Bytes)
    → In t (each f us) ↔ ((u : Bytes) × In u us × In t (f u))
unfolding each
In-each f t [] = ((λ h. absurd h), (λ h. absurd (h.1)))
In-each f t (u ∷ us) = (
  (λ h. elim ((In-append t (f u) (each f us)).0 h) [
    | inl k ↦ (u, inl refl, k)
    | inr k ↦ let (v, m, n) = (In-each f t us).0 k in (v, inr m, n)
  ]),
  (λ h. (In-append t (f u) (each f us)).1 (pick (In-each f t us).1 h)),
)
  where
    pick :
        (((v : Bytes) × In v us × In t (f v)) → In t (each f us))
        → ((v : Bytes) × In v (u ∷ us) × In t (f v))
        → In t (f u) ⊎ In t (each f us)
    pick rest (v, inl e, n) = inl (rw (← e) n)
    pick rest (v, inr m, n) = inr (rest (v, m, n))

-- What remains, and what was matched.
abbrev Splits : Re → Bytes → Bytes → Type 0
Splits r s t = (x : Bytes) × (s ≡ x ++ t) × Matches r x

plus_rests-Splits : (cs s t : Bytes) → In t (plus_rests cs s) → Splits (plus cs) s t
unfolding plus_rests
plus_rests-Splits cs [] t h = absurd h
plus_rests-Splits cs (c ∷ s) t h = elim (Bool-cases (has c cs)) [
  | inr e ↦ absurd (rw e at h)
  | inl e ↦ elim ((In-append t (plus_rests cs s) (s ∷ [])).0 (rw e at h)) [
    | inl k ↦
        let (x, eq, m) = plus_rests-Splits cs s t k in
        (c ∷ x, ap (λ l. c ∷ l) eq, ((λ n. cc), (e, m.1)))
    | inr k ↦ elim k [
      | inl eq ↦ (c ∷ [], ap (λ l. c ∷ l) (sym eq), ((λ n. cc), (e, tt)))
      | inr f ↦ absurd f
    ]
  ]
]

Splits-plus_rests :
    (cs x t : Bytes) → x ≢ [] → All (λ c. has c cs ≡ true) x → In t (plus_rests cs (x ++ t))
unfolding plus_rests
Splits-plus_rests cs [] t ne h = absurd (ne refl)
Splits-plus_rests cs (c ∷ []) t ne h =
    rw (h.0) ((In-append t (plus_rests cs t) (t ∷ [])).1 (inr (inl refl)))
Splits-plus_rests cs (c ∷ d ∷ x) t ne h = rw (h.0) (
    (In-append t (plus_rests cs (d ∷ x ++ t)) ((d ∷ x ++ t) ∷ [])).1
      (inl (Splits-plus_rests cs (d ∷ x) t (λ n. cc) h.1)))

pub rests_sound : (r : Re) (s t : Bytes) → In t (rests r s) → Splits r s t
unfolding rests
rests_sound eps s t h = elim h [ inl e ↦ ([], sym e, refl) | inr f ↦ absurd f ]
rests_sound (cls cs) [] t h = absurd h
rests_sound (cls cs) (c ∷ s) t h = elim (Bool-cases (has c cs)) [
  | inr e ↦ absurd (rw e at h)
  | inl e ↦
      let k : In t (s ∷ []) = rw e at h in
      elim k [ inl eq ↦ (c ∷ [], ap (λ l. c ∷ l) (sym eq), (c, refl, e)) | inr f ↦ absurd f ]
]
rests_sound (plus cs) s t h = plus_rests-Splits cs s t h
rests_sound (seq a b) s t h =
    let (u, m, n) = (In-each (rests b) t (rests a s)).0 h in
    let (x, ex, mx) = rests_sound a s u m in
    let (y, ey, my) = rests_sound b u t n in
    (x ++ y, ex ∙ ap (λ l. x ++ l) ey ∙ sym (append_assoc x y t), (x, y, refl, mx, my))
rests_sound (alt a b) s t h = elim ((In-append t (rests a s) (rests b s)).0 h) [
  | inl k ↦ let (x, e, m) = rests_sound a s t k in (x, e, inl m)
  | inr k ↦ let (x, e, m) = rests_sound b s t k in (x, e, inr m)
]

pub rests_complete : (r : Re) (x t : Bytes) → Matches r x → In t (rests r (x ++ t))
unfolding rests
rests_complete eps x t m = inl (rw m)
rests_complete (cls cs) x t (c, e, h) = rw e (rw h (inl refl))
rests_complete (plus cs) x t m = Splits-plus_rests cs x t m.0 m.1
rests_complete (seq a b) x t (y, z, e, my, mz) =
    rw (e, append_assoc y z t)
      ((In-each (rests b) t (rests a (y ++ (z ++ t)))).1
        (z ++ t, rests_complete a y (z ++ t) my, rests_complete b z t mz))
rests_complete (alt a b) x t (inl m) =
    (In-append t (rests a (x ++ t)) (rests b (x ++ t))).1 (inl (rests_complete a x t m))
rests_complete (alt a b) x t (inr m) =
    (In-append t (rests a (x ++ t)) (rests b (x ++ t))).1 (inr (rests_complete b x t m))

any_empty : List Bytes → Bool
any_empty [] = false
any_empty ([] ∷ ts) = true
any_empty ((c ∷ s) ∷ ts) = any_empty ts

any_empty_iff : (ts : List Bytes) → (any_empty ts ≡ true) ↔ In [] ts
unfolding any_empty
any_empty_iff [] = ((λ h. cc), (λ h. absurd h))
any_empty_iff ([] ∷ ts) = ((λ h. inl refl), (λ h. refl))
any_empty_iff ((c ∷ s) ∷ ts) = (
  (λ h. inr ((any_empty_iff ts).0 h)),
  (λ h. elim h [ inl e ↦ cc | inr k ↦ (any_empty_iff ts).1 k ]),
)

pub whole_match : Re → Bytes → Bool
unfolding rests any_empty
whole_match r s = any_empty (rests r s)

pub whole_match_iff : (r : Re) (s : Bytes) → (whole_match r s ≡ true) ↔ Matches r s
unfolding whole_match
whole_match_iff r s = (
  (λ h.
      let (x, e, m) = rests_sound r s [] ((any_empty_iff (rests r s)).0 h) in
      rw (e, append-nil x) m),
  (λ m. (any_empty_iff (rests r s)).1 (rw append-nil at (rests_complete r s [] m))),
)
