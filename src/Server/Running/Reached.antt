-- ===== src/Server/Running/Reached.antt =====
-- Courses that go on: the writes are complete, and the four threads come to the barriers.
use kierki_sik.Prelude.{
  ℕ, ◌+◌, ◌≤◌, ◌≡◌, refl, sym, ap, subst, ◌∙◌, inl, inr, List, [], ◌∷◌, ◌++◌, Bool, true, false,
  ◌&&◌, none, some, arith, ◌==◌, ltb, if◌then◌else◌, Bool-cases,
}
use kierki_sik.Server.{Signal, answer, later, barrier_response, barrier_end}
use kierki_sik.Server.Running.{
  Meeting, first_meeting, later_meetings, meet_byte, meet_pipe, meet_pipes, meet, with_occupied,
  with_ongoing, Seen, nothing, byte, Desk, Course, going, tell, tell_all, barrier, ◌>>=◌,
}

-- How many answers in a row are good.
abbrev pub leading : List Bool → ℕ
leading [] = 0
leading (true ∷ bs) = leading bs + 1
leading (false ∷ bs) = 0

-- Pipes with nothing, or with the byte of the thread that came last.
abbrev pub calm : List Seen → Bool
calm [] = true
calm (nothing ∷ pipes) = calm pipes
calm (byte barrier_response ∷ pipes) = calm pipes
calm _ = false

-- A barrier to which all four threads come, in any number of rounds, and which nobody leaves.
abbrev pub meets : Meeting → Bool
meets [] = false
meets (none ∷ rounds) = false
meets (some (pipes, occupied) ∷ rounds) =
    calm pipes && (if ltb occupied 4 then meets rounds else true)

-- How many such barriers in a row come next.
abbrev pub coming : List Meeting → ℕ
coming [] = 0
coming (rounds ∷ meetings) = if meets rounds then coming meetings + 1 else 0

-- The course goes on behind `w` writes and `b` barriers.
pub record Reaches (w b : ℕ) (d : Desk) (x : Course) : Type 0 where
  pub after : Desk
  pub runs : x ≡ going after
  pub writes : leading d.writes ≡ w + leading after.writes
  pub barriers : coming d.barriers ≡ b + coming after.barriers

-- One course behind another.
pub then-Reaches :
    (w b w' b' : ℕ) (d : Desk) (x : Course) (f : Desk → Course) (r : Reaches w b d x)
    → Reaches w' b' r.after (f r.after)
    → Reaches (w + w') (b + b') d (x >>= f)
then-Reaches w b w' b' d x f r q =
    let p = r.writes in
    let p' = q.writes in
    let h = r.barriers in
    let h' = q.barriers in
    record {
      after = q.after;
      runs = ap (λ y. y >>= f) r.runs ∙ q.runs;
      writes = omega arith;
      barriers = omega arith;
    }

pub bind-Reaches :
    (w b w' b' : ℕ) (d : Desk) (x : Course) (f : Desk → Course)
    → Reaches w b d x
    → ((e : Desk)
        → x ≡ going e
        → leading d.writes ≡ w + leading e.writes
        → coming d.barriers ≡ b + coming e.barriers
        → Reaches w' b' e (f e))
    → Reaches (w + w') (b + b') d (x >>= f)
bind-Reaches w b w' b' d x f r more =
    then-Reaches w b w' b' d x f r (more r.after r.runs r.writes r.barriers)

pub count-Reaches :
    (w b v c : ℕ) (d d' : Desk) (x : Course)
    → w ≡ v
    → b ≡ c
    → leading d.writes ≡ leading d'.writes
    → coming d.barriers ≡ coming d'.barriers
    → Reaches w b d' x
    → Reaches v c d x
count-Reaches w b v c d d' x p q h k r = record {
  after = r.after;
  runs = r.runs;
  writes = h ∙ r.writes ∙ ap (λ n. n + leading r.after.writes) p;
  barriers = k ∙ r.barriers ∙ ap (λ n. n + coming r.after.barriers) q;
}

pub answer-leading :
    (bs : List Bool) → 1 ≤ leading bs → (answer bs ≡ true) × (leading bs ≡ 1 + leading (later bs))
answer-leading [] l = absurd (omega arith)
answer-leading (true ∷ bs) l = (refl, omega arith)
answer-leading (false ∷ bs) l = absurd (omega arith)

pub tell-Reaches :
    (m : Signal) (i : ℕ) (d : Desk) → 1 ≤ leading d.writes → Reaches 1 0 d (tell m i d)
unfolding tell
tell-Reaches m i d l =
    let (t, e) = answer-leading d.writes l in
    let d' = record d { told = d.told ++ (i, m) ∷ []; writes = later d.writes } in
    record { after = d'; runs = rw t refl; writes = e; barriers = omega arith }

pub tell_all-Reaches : (m : Signal) (d : Desk) → 4 ≤ leading d.writes → Reaches 4 0 d (tell_all m d)
unfolding tell_all
tell_all-Reaches m d l =
    bind-Reaches 3 0 1 0 d _ _
      (bind-Reaches 2 0 1 0 d _ _
        (bind-Reaches 1 0 1 0 d _ _ (tell-Reaches m 0 d (omega arith))
          (λ e q w b. tell-Reaches m 1 e (omega arith)))
        (λ e q w b. tell-Reaches m 2 e (omega arith)))
      (λ e q w b. tell-Reaches m 3 e (omega arith))

meet_pipes-calm :
    (i : ℕ) (pipes : List Seen) (d : Desk) → calm pipes ≡ true → meet_pipes i pipes d ≡ going d
unfolding meet_pipes meet_pipe meet_byte
meet_pipes-calm i [] d e = refl
meet_pipes-calm i (nothing ∷ pipes) d e = meet_pipes-calm (i + 1) pipes d e
meet_pipes-calm i (byte barrier_response ∷ pipes) d e = meet_pipes-calm (i + 1) pipes d e
meet_pipes-calm i (_ ∷ pipes) d e = absurd (ground arith)

-- The course goes on with the writes and the barriers of `d` still to come.
abbrev Onward : Desk → Course → Type 0
Onward d x = (e : Desk) × (x ≡ going e) × (e.writes ≡ d.writes) × (e.barriers ≡ d.barriers)

met :
    (b : Bool) (occupied : ℕ) (d : Desk)
    → Onward d (
        going
          (if b then with_ongoing false (with_occupied occupied d) else with_occupied occupied d))
met true occupied d = (_, refl, refl, refl)
met false occupied d = (_, refl, refl, refl)

both_true : (a b : Bool) → (a && b) ≡ true → (a ≡ true) × (b ≡ true)
both_true true true e = (refl, refl)
both_true true false e = absurd (ground arith)
both_true false b e = absurd (ground arith)

meet-Onward : (rounds : Meeting) (d : Desk) → meets rounds ≡ true → Onward d (meet rounds d)
unfolding meet
meet-Onward [] d m = absurd (ground arith)
meet-Onward (none ∷ rounds) d m = absurd (ground arith)
meet-Onward (some (pipes, occupied) ∷ rounds) d m =
    let (c, n) = both_true (calm pipes) (if ltb occupied 4 then meets rounds else true) m in
    rw (meet_pipes-calm 0 pipes d c) (elim (Bool-cases (ltb occupied 4)) [
      | inl t ↦ rw t (
          meet-Onward rounds (with_occupied occupied d)
            (subst (λ b. (if b then meets rounds else true) ≡ true) t n))
      | inr f ↦ rw f (met (occupied == 4) occupied d)
    ])

first-coming :
    (meetings : List Meeting)
    → 1 ≤ coming meetings
    → (meets (first_meeting meetings) ≡ true)
      × (coming meetings ≡ 1 + coming (later_meetings meetings))
first-coming [] l = absurd (omega arith)
first-coming (rounds ∷ meetings) l = elim (Bool-cases (meets rounds)) [
  | inl t ↦ (t, rw t (omega arith))
  | inr f ↦ absurd (ground arith)
]

pub barrier-Reaches :
    (d : Desk) → 8 ≤ leading d.writes → 1 ≤ coming d.barriers → Reaches 8 1 d (barrier d)
unfolding barrier
barrier-Reaches d l h =
    let (t, k) = first-coming d.barriers h in
    let d' =
      with_ongoing true (with_occupied 0 (record d { barriers = later_meetings d.barriers })) in
    let r =
      bind-Reaches (4 + 0) (0 + 0) 4 0 d' _ _
        (bind-Reaches 4 0 0 0 d' _ _ (tell_all-Reaches barrier_response d' (omega arith))
          (λ e q w b.
            let (u, x, y, z) = meet-Onward (first_meeting d.barriers) e t in
            record {
              after = u;
              runs = x;
              writes = ap leading (sym y) ∙ omega arith;
              barriers = ap coming (sym z) ∙ omega arith;
            }))
        (λ e q w b. tell_all-Reaches barrier_end e (omega arith)) in
    record {
      after = r.after;
      runs = r.runs;
      writes = r.writes;
      barriers = k ∙ ap (λ n. 1 + n) r.barriers ∙ omega arith;
    }
