-- ===== src/Server/Closing/Steps.antt =====
-- Each step of `close_server` as a phase.
use kierki_sik.Prelude.{
  ℕ, zero, suc, ◌≡◌, refl, sym, ap, ◌∙◌, List, [], ◌∷◌, append-nil, map, ◌++◌, Bool, true, false,
  not, ◌||◌, Option, none, some, Bytes, codes, length, Bool-cases, inl, inr,
}
use kierki_sik.Server.{disconnected, end_signal, answer, later}
use kierki_sik.Server.Closing.{
  Descriptor, Act, closes, tells, joins_connections, joins, Main, act, write, join,
  stop_connections, tell_client, join_clients, close_fds, report_end,
}
use kierki_sik.Server.Closing.Phases.{
  deeds, Does, did, thrown, refused, later_joins, joined_clients, is_text, Phase, or_true, or_false,
  reported, next-Phase, same-Phase, nothing-Phase,
}

-- The two acts of joining a thread.
data IsJoin : (Bool → Act) → Type 0 where
  connections : IsJoin joins_connections
  client : (id : ℕ) → IsJoin (joins id)

join_did : (a : Bool → Act) (b : Bool) (m : Main) → IsJoin a → Does m (a b ∷ []) (act (a b) m)
unfolding deeds
join_did a b m connections = did (joins_connections b) m
join_did a b m (client id) = did (joins id b) m

join-Phase :
    (a : Bool → Act) (m : Main)
    → IsJoin a
    → Phase m
        (join a m.joined m)
        (a (not (thrown 1 m.joined)) ∷ [])
        (thrown 1 m.joined)
        m.writes
        (later_joins m.joined)
unfolding join
join-Phase a m h = go m.joined refl
  where
    go :
        (js : List (Option Bytes))
        → m.joined ≡ js
        → Phase m (join a js m) (a (not (thrown 1 js)) ∷ []) (thrown 1 js) m.writes (later_joins js)
    go [] e = record {
      done = join_did a true m h;
      failed = or_false m.b_did_something_fail;
      writes_left = refl;
      joins_left = e;
    }
    go (none ∷ js) e = record {
      done = join_did a true m h;
      failed = or_false m.b_did_something_fail;
      writes_left = refl;
      joins_left = refl;
    }
    go (some what ∷ js) e = record {
      done = reported what (act (a false) m) ∙ join_did a false m h;
      failed = or_true m.b_did_something_fail;
      writes_left = refl;
      joins_left = refl;
    }

tell_client-Phase :
    (i : ℕ) (m : Main)
    → Phase m
        (tell_client i m)
        (tells i disconnected (answer m.writes) ∷ [])
        (not (answer m.writes))
        (later m.writes)
        m.joined
unfolding tell_client deeds
tell_client-Phase i m = elim (Bool-cases (answer m.writes)) [
  | inl e ↦ rw e record {
    done = did (tells i disconnected true) m;
    failed = or_false m.b_did_something_fail;
    writes_left = refl;
    joins_left = refl;
  }
  | inr e ↦ rw e record {
    done =
        reported (codes "Failed to notify thread on server close.")
          (record m { log = m.log ++ tells i disconnected false ∷ []; writes = later m.writes })
        ∙ did (tells i disconnected false) m;
    failed = or_true m.b_did_something_fail;
    writes_left = refl;
    joins_left = refl;
  }
]

abbrev pub drop_joins : ℕ → List (Option Bytes) → List (Option Bytes)
drop_joins zero js = js
drop_joins (suc n) js = drop_joins n (later_joins js)

pub thrown_next :
    (n : ℕ) (js : List (Option Bytes))
    → thrown 1 js || thrown n (later_joins js) ≡ thrown (suc n) js
thrown_next zero [] = refl
thrown_next (suc n) [] = refl
thrown_next n (none ∷ js) = refl
thrown_next n (some what ∷ js) = refl

pub join_clients-Phase :
    (ids : List ℕ) (m : Main)
    → Phase m
        (join_clients ids m)
        (joined_clients ids m.joined)
        (thrown (length ids) m.joined)
        m.writes
        (drop_joins (length ids) m.joined)
unfolding join_clients
join_clients-Phase [] m = record {
  done = sym (append-nil (deeds m.log));
  failed = or_false m.b_did_something_fail;
  writes_left = refl;
  joins_left = refl;
}
join_clients-Phase (id ∷ ids) m =
    let first = join-Phase (joins id) m (client id) in
    let rest = join_clients-Phase ids (join (joins id) m.joined m) in
    same-Phase
      (next-Phase first (
        same-Phase rest (ap (joined_clients ids) first.joins_left)
          (ap (thrown (length ids)) first.joins_left) first.writes_left
          (ap (drop_joins (length ids)) first.joins_left)))
      refl (thrown_next (length ids) m.joined) refl refl

pub close_fds-Phase :
    (fds : List Descriptor) (m : Main)
    → Phase m (close_fds fds m) (map closes fds) false m.writes m.joined
unfolding close_fds deeds
close_fds-Phase [] m = record {
  done = sym (append-nil (deeds m.log));
  failed = or_false m.b_did_something_fail;
  writes_left = refl;
  joins_left = refl;
}
close_fds-Phase (fd ∷ fds) m = next-Phase first (close_fds-Phase fds (act (closes fd) m))
  where
    first : Phase m (act (closes fd) m) (closes fd ∷ []) false m.writes m.joined
    first = record {
      done = did (closes fd) m;
      failed = or_false m.b_did_something_fail;
      writes_left = refl;
      joins_left = refl;
    }

pub report_end-Phase :
    (message : Bytes) (m : Main)
    → Phase m (report_end message m) [] (is_text message) m.writes m.joined
unfolding report_end
report_end-Phase [] m = record {
  done = sym (append-nil (deeds m.log));
  failed = or_false m.b_did_something_fail;
  writes_left = refl;
  joins_left = refl;
}
report_end-Phase (c ∷ message) m = record {
  done = reported (c ∷ message) m ∙ sym (append-nil (deeds m.log));
  failed = or_true m.b_did_something_fail;
  writes_left = refl;
  joins_left = refl;
}

tell_next :
    (i : ℕ) (m : Main) {ws : List Bool} {js : List (Option Bytes)}
    → m.writes ≡ ws
    → m.joined ≡ js
    → Phase m
        (tell_client i m)
        (tells i disconnected (answer ws) ∷ [])
        (not (answer ws))
        (later ws)
        js
tell_next i m e d =
    same-Phase (tell_client-Phase i m) (ap (λ l. tells i disconnected (answer l) ∷ []) e)
      (ap (λ l. not (answer l)) e) (ap later e) d

-- The tries to tell the four clients' threads.
abbrev pub told_clients : List Bool → List Act
told_clients ws =
    tells 0 disconnected (answer ws)
    ∷ tells 1 disconnected (answer (later ws))
    ∷ tells 2 disconnected (answer (later (later ws)))
    ∷ tells 3 disconnected (answer (later (later (later ws))))
    ∷ []

pub tell_clients-Phase :
    (m : Main)
    → Phase m
        (tell_client 3 (tell_client 2 (tell_client 1 (tell_client 0 m))))
        (told_clients m.writes)
        (refused 4 m.writes)
        (later (later (later (later m.writes))))
        m.joined
tell_clients-Phase m =
    let p0 = tell_next 0 m refl refl in
    let p1 = tell_next 1 (tell_client 0 m) p0.writes_left p0.joins_left in
    let p2 = tell_next 2 (tell_client 1 (tell_client 0 m)) p1.writes_left p1.joins_left in
    let p3 =
      tell_next 3 (tell_client 2 (tell_client 1 (tell_client 0 m))) p2.writes_left p2.joins_left in
    next-Phase p0
      (next-Phase p1 (next-Phase p2 (next-Phase p3 (nothing-Phase _ p3.writes_left p3.joins_left))))

pub stop_connections-Phase :
    (m : Main)
    → Phase m
        (stop_connections m)
        (tells 4 end_signal (answer m.writes) ∷ joins_connections (not (thrown 1 m.joined)) ∷ [])
        (thrown 1 m.joined)
        (later m.writes)
        (later_joins m.joined)
unfolding stop_connections deeds
stop_connections-Phase m =
    next-Phase told (join-Phase joins_connections (write 4 end_signal m) connections)
  where
    told :
        Phase m
          (write 4 end_signal m)
          (tells 4 end_signal (answer m.writes) ∷ [])
          false
          (later m.writes)
          m.joined
    told = record {
      done = did (tells 4 end_signal (answer m.writes)) m;
      failed = or_false m.b_did_something_fail;
      writes_left = refl;
      joins_left = refl;
    }
