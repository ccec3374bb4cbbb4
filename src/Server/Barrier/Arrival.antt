-- ===== src/Server/Barrier/Arrival.antt =====
-- The arrival of one client more in a barrier that nobody leaves.
use kierki_sik.Prelude.{
  ◌+◌, ◌<◌, ◌≡◌, inl, inr, ap, sym, ◌∙◌, List, [], ◌∷◌, ◌++◌, Bool, true, false, arith, ℕ_discrete,
  ==_iff, ne→==, subst,
}
use kierki_sik.Seats.{Seat}
use kierki_sik.Server.{Signal, barrier_response}
use kierki_sik.Server.Barrier.{Room, put, arrive}
use kierki_sik.Server.Barrier.Meeting.{
  count-put, count_short, put_at, put_cases, Place, Told, IsMeeting,
}

places_after :
    (x : Seat) (rest : List Signal) (r : Room)
    → ((z : Seat) → Place r z)
    → r.orders x ≡ barrier_response ∷ rest
    → r.orders x ≡ barrier_response ∷ []
    → (z : Seat) → Place (arrive x rest r) z
unfolding arrive
places_after x rest r places e o z = elim (put_cases x z) [
  | inl same_seat ↦
      subst (Place (arrive x rest r)) (sym same_seat)
        (inr (put_at x true r.arrived, put_at x rest r.orders ∙ cc (e, o)))
  | inr other ↦ rw (other Bool true r.arrived, other (List Signal) rest r.orders) (places z)
]

news_after :
    (x : Seat) (rest : List Signal) (r : Room)
    → r.server.occupied < 4
    → ((z : Seat) → r.reports z ≡ [])
    → Told (arrive x rest r)
unfolding arrive
news_after x rest r short quiet = elim (ℕ_discrete (r.server.occupied + 1) 4) [
  | yes full ↦ rw ((==_iff _ _).1 full) (inr (full, (x, now)))
  | no more ↦ rw (ne→== _ _ more) (inl (omega arith, quiet))
]
  where
    now :
        (z : Seat)
        → put x (r.reports x ++ barrier_response ∷ []) r.reports z
          ≡ put x (barrier_response ∷ []) (λ _. []) z
    now z = elim (put_cases x z) [
      | inl same_seat ↦
          subst
            (λ y.
              put x (r.reports x ++ barrier_response ∷ []) r.reports y
              ≡ put x (barrier_response ∷ []) (λ _. []) y)
            (sym same_seat)
            (put_at x _ _ ∙ ap (λ l. l ++ barrier_response ∷ []) (quiet x) ∙ sym (put_at x _ _))
      | inr other ↦ other _ _ _ ∙ quiet z ∙ sym (other _ _ _)
    ]

quiet_before :
    (x : Seat) (r : Room)
    → IsMeeting r
    → r.arrived x ≡ false
    → (r.server.occupied < 4) × ((z : Seat) → r.reports z ≡ [])
quiet_before x r h a = by_told h.told
  where
    by_told : Told r → (r.server.occupied < 4) × ((z : Seat) → r.reports z ≡ [])
    by_told (inl p) = p
    by_told (inr p) = absurd (omega (arith, p.0, h.counted, count_short x r.arrived a))

pub arrive-IsMeeting :
    (x : Seat) (rest : List Signal) (r : Room)
    → IsMeeting r
    → r.orders x ≡ barrier_response ∷ rest
    → IsMeeting (arrive x rest r)
unfolding arrive
arrive-IsMeeting x rest r h e = by_place (h.places x)
  where
    by_place : Place r x → IsMeeting (arrive x rest r)
    by_place (inr (a, n)) = cc (n, e)
    by_place (inl (a, o)) = record {
      places = places_after x rest r h.places e o;
      counted = omega (arith, h.counted, count-put x r.arrived a);
      told = news_after x rest r (quiet_before x r h a).0 (quiet_before x r h a).1;
      silent = h.silent;
    }
