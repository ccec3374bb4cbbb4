-- ===== src/Server/Barrier/Meeting.antt =====
-- A barrier that nobody leaves ends, and only when all four have come.
use kierki_sik.Prelude.{
  ℕ, suc, ◌+◌, ◌<◌, ◌≡◌, ◌⊎◌, inl, inr, refl, [], ◌∷◌, Bool, true, false, arith, Bool-cases,
}
use kierki_sik.Seats.{Seat, north, east, south, west}
use kierki_sik.Server.{barrier_response}
use kierki_sik.Server.Barrier.{Room, put, begin_barrier}

abbrev pub one : Bool → ℕ
one true = 1
one false = 0

-- How many of the four have come.
abbrev pub count : (Seat → Bool) → ℕ
count f = one (f north) + one (f east) + one (f south) + one (f west)

pub count-put : (x : Seat) (f : Seat → Bool) → f x ≡ false → count (put x true f) ≡ suc (count f)
count-put north f e = ground arith
count-put _ f e = ground arith

pub count_short : (x : Seat) (f : Seat → Bool) → f x ≡ false → count f < 4
count_short north f e = ground arith
count_short _ f e = ground arith

pub count_full : (x : Seat) (f : Seat → Bool) → count f ≡ 4 → f x ≡ true
count_full north f e = ground arith
count_full _ f e = ground arith

pub missing : (f : Seat → Bool) → count f < 4 → (x : Seat) × (f x ≡ false)
missing f h = elim (Bool-cases (f north)) [
  | inr n ↦ (north, n)
  | inl n ↦ elim (Bool-cases (f east)) [
    | inr e ↦ (east, e)
    | inl e ↦ elim (Bool-cases (f south)) [
      | inr s ↦ (south, s)
      | inl s ↦ elim (Bool-cases (f west)) [
        | inr w ↦ (west, w)
        | inl w ↦ absurd (ground (arith, n, e, s, w))
      ]
    ]
  ]
]

pub put_at : {A : Type 0} (y : Seat) (v : A) (f : Seat → A) → put y v f y ≡ v
put_at north v f = refl
put_at _ v f = refl

-- Writing the entry of `x` changes that of `z` only if they are the same.
pub put_cases : (x z : Seat) → (z ≡ x) ⊎ ((A : Type 0) (v : A) (f : Seat → A) → put x v f z ≡ f z)
put_cases north north = inl refl
put_cases east east = inl refl
put_cases south south = inl refl
put_cases west west = inl refl
put_cases north _ = inr (λ A v f. refl)
put_cases east _ = inr (λ A v f. refl)
put_cases south _ = inr (λ A v f. refl)
put_cases west _ = inr (λ A v f. refl)

-- No pipe holds a message, and nobody has come.
pub record IsIdle (r : Room) : Type 0 where
  pub no_orders : (x : Seat) → r.orders x ≡ []
  pub no_reports : (x : Seat) → r.reports x ≡ []
  pub no_connection : r.connection ≡ []
  pub nobody : (x : Seat) → r.arrived x ≡ false

-- A client is still to read its order, or has read it and has come.
abbrev pub Place : Room → Seat → Type 0
Place r x =
    ((r.arrived x ≡ false) × (r.orders x ≡ barrier_response ∷ []))
    ⊎ ((r.arrived x ≡ true) × (r.orders x ≡ []))

-- The main thread is told once, when all have come.
abbrev pub Told : Room → Type 0
Told r =
    ((r.server.occupied < 4) × ((x : Seat) → r.reports x ≡ []))
    ⊎ ((r.server.occupied ≡ 4)
        × ((y : Seat) × ((x : Seat) → r.reports x ≡ put y (barrier_response ∷ []) (λ _. []) x)))

pub record IsMeeting (r : Room) : Type 0 where
  pub places : (x : Seat) → Place r x
  pub counted : r.server.occupied ≡ count r.arrived
  pub told : Told r
  pub silent : r.connection ≡ []

pub begin_barrier-IsMeeting : (r : Room) → IsIdle r → IsMeeting (begin_barrier r)
unfolding begin_barrier
begin_barrier-IsMeeting r h = record {
  places = λ x. inl (h.nobody x, rw (h.no_orders x) refl);
  counted = rw (h.nobody north, h.nobody east, h.nobody south, h.nobody west) refl;
  told = inl (omega arith, h.no_reports);
  silent = h.no_connection;
}
