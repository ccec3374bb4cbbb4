-- ===== src/Server/Closing/Descriptors.antt =====
-- Which descriptors are opened and closed by the steps of the main thread.
use kierki_sik.Prelude.{
  ℕ, zero, suc, ◌+◌, ◌≡◌, refl, sym, ap, ◌∙◌, List, [], ◌∷◌, ◌++◌, append_assoc, append-nil, Bytes,
  Option, map, arith,
}
use mathlib.Core.List.{Perm}
use kierki_sik.Server.Closing.{
  Descriptor, pipes_at, Act, opens, closes, reports, Main, act, close_fds, close_first,
  close_server,
}
use kierki_sik.Server.Closing.Phases.{deeds, joined_clients, later_joins}
use kierki_sik.Server.Closing.Shutdown.{close_server-shutdown, shutdown}

-- The descriptors that a log opens, and those that it closes.
unfoldable pub opened : List Act → List Descriptor
opened [] = []
opened (opens fd ∷ log) = fd ∷ opened log
opened (a ∷ log) = opened log

unfoldable pub closed : List Act → List Descriptor
closed [] = []
closed (closes fd ∷ log) = fd ∷ closed log
closed (a ∷ log) = closed log

pub opened-append : (xs ys : List Act) → opened (xs ++ ys) ≡ opened xs ++ opened ys
unfolding opened
opened-append [] ys = refl
opened-append (opens fd ∷ xs) ys = ap (λ l. fd ∷ l) (opened-append xs ys)
opened-append (a ∷ xs) ys = opened-append xs ys

pub closed-append : (xs ys : List Act) → closed (xs ++ ys) ≡ closed xs ++ closed ys
unfolding closed
closed-append [] ys = refl
closed-append (closes fd ∷ xs) ys = ap (λ l. fd ∷ l) (closed-append xs ys)
closed-append (a ∷ xs) ys = closed-append xs ys

-- The pipes of `n` indices from `j` on.
abbrev pub pipes_from : ℕ → ℕ → List Descriptor
pipes_from zero j = []
pipes_from (suc n) j = pipes_at j ++ pipes_from n (j + 1)

pub pipes_from_last : (n j : ℕ) → pipes_from (suc n) j ≡ pipes_from n j ++ pipes_at (n + j)
pipes_from_last zero j = ap pipes_at (omega arith)
pipes_from_last (suc n) j =
    ap (λ l. pipes_at j ++ l)
      (pipes_from_last n (j + 1) ∙ ap (λ k. pipes_from n (j + 1) ++ pipes_at k) (omega arith))

pub record Closes (fds : List Descriptor) (m m' : Main) : Type 0 where
  pub more : closed m'.log ≡ closed m.log ++ fds
  pub same : opened m'.log ≡ opened m.log

pub next-Closes :
    (xs ys : List Descriptor) (m n o : Main) → Closes xs m n → Closes ys n o → Closes (xs ++ ys) m o
next-Closes xs ys m n o p q = record {
  more = q.more ∙ ap (λ l. l ++ ys) p.more ∙ append_assoc (closed m.log) xs ys;
  same = q.same ∙ p.same;
}

pub close_fds-Closes : (fds : List Descriptor) (m : Main) → Closes fds m (close_fds fds m)
unfolding close_fds opened closed
close_fds-Closes [] m = record { more = sym (append-nil (closed m.log)); same = refl }
close_fds-Closes (fd ∷ fds) m =
    next-Closes (fd ∷ []) fds m (act (closes fd) m) (close_fds fds (act (closes fd) m))
      (record {
        more = closed-append m.log (closes fd ∷ []);
        same = opened-append m.log (closes fd ∷ []) ∙ append-nil (opened m.log);
      })
      (close_fds-Closes fds (act (closes fd) m))

pub close_first-Closes : (n j : ℕ) (m : Main) → Closes (pipes_from n j) m (close_first n j m)
unfolding close_first
close_first-Closes zero j m = record { more = sym (append-nil (closed m.log)); same = refl }
close_first-Closes (suc n) j m =
    next-Closes (pipes_at j) (pipes_from n (j + 1)) m (close_fds (pipes_at j) m) _
      (close_fds-Closes (pipes_at j) m) (close_first-Closes n (j + 1) (close_fds (pipes_at j) m))

-- These descriptors were opened, and none was closed.
pub record HasOpen (fds : List Descriptor) (m : Main) : Type 0 where
  pub there : opened m.log ≡ fds
  pub untouched : closed m.log ≡ []

-- Everything that was opened was closed.
abbrev pub IsTidy : Main → Type 0
IsTidy m = Perm (opened m.log) (closed m.log)

pub idle-HasOpen :
    (fds : List Descriptor) (message : Bytes) (m : Main)
    → HasOpen fds m
    → HasOpen fds (act (reports message) m)
unfolding opened closed
idle-HasOpen fds message m h = record {
  there = opened-append m.log (reports message ∷ []) ∙ append-nil (opened m.log) ∙ h.there;
  untouched = closed-append m.log (reports message ∷ []) ∙ append-nil (closed m.log) ∙ h.untouched;
}

pub open-HasOpen :
    (fds : List Descriptor) (fd : Descriptor) (m : Main)
    → HasOpen fds m
    → HasOpen (fds ++ fd ∷ []) (act (opens fd) m)
unfolding opened closed
open-HasOpen fds fd m h = record {
  there = opened-append m.log (opens fd ∷ []) ∙ ap (λ l. l ++ fd ∷ []) h.there;
  untouched = closed-append m.log (opens fd ∷ []) ∙ append-nil (closed m.log) ∙ h.untouched;
}

pub tidy :
    (xs ys : List Descriptor) (m n : Main) → HasOpen xs m → Closes ys m n → Perm xs ys → IsTidy n
tidy xs ys m n h c p = rw (c.same, h.there, c.more, h.untouched) p

opened-deeds : (log : List Act) → opened (deeds log) ≡ opened log
unfolding deeds opened
opened-deeds [] = refl
opened-deeds (opens fd ∷ log) = ap (λ l. fd ∷ l) (opened-deeds log)
opened-deeds (a ∷ log) = opened-deeds log

closed-deeds : (log : List Act) → closed (deeds log) ≡ closed log
unfolding deeds closed
closed-deeds [] = refl
closed-deeds (closes fd ∷ log) = ap (λ l. fd ∷ l) (closed-deeds log)
closed-deeds (a ∷ log) = closed-deeds log

-- The tries to join open and close nothing.
closed-joined_clients :
    (ids : List ℕ) (js : List (Option Bytes)) (acts : List Act)
    → closed (joined_clients ids js ++ acts) ≡ closed acts
unfolding closed
closed-joined_clients [] js acts = refl
closed-joined_clients (id ∷ ids) js acts = closed-joined_clients ids (later_joins js) acts

opened-joined_clients :
    (ids : List ℕ) (js : List (Option Bytes)) (acts : List Act)
    → opened (joined_clients ids js ++ acts) ≡ opened acts
unfolding opened
opened-joined_clients [] js acts = refl
opened-joined_clients (id ∷ ids) js acts = opened-joined_clients ids (later_joins js) acts

pub close_server-Closes :
    (message : Bytes) (ids : List ℕ) (m : Main)
    → Closes (pipes_from 5 0) m (close_server message ids m)
unfolding opened closed
close_server-Closes message ids m =
    let e = (close_server-shutdown message ids m).0 in
    let acts = shutdown ids m.writes m.joined in
    record {
      more =
          sym (closed-deeds (close_server message ids m).log)
          ∙ ap closed e
          ∙ closed-append (deeds m.log) acts
          ∙ ap (λ l. closed (deeds m.log) ++ l)
              (closed-joined_clients ids (later_joins m.joined)
                (map closes (pipes_at 0 ++ pipes_at 1 ++ pipes_at 2 ++ pipes_at 3 ++ pipes_at 4)))
          ∙ ap (λ l. l ++ pipes_from 5 0) (closed-deeds m.log);
      same =
          sym (opened-deeds (close_server message ids m).log)
          ∙ ap opened e
          ∙ opened-append (deeds m.log) acts
          ∙ ap (λ l. opened (deeds m.log) ++ l)
              (opened-joined_clients ids (later_joins m.joined)
                (map closes (pipes_at 0 ++ pipes_at 1 ++ pipes_at 2 ++ pipes_at 3 ++ pipes_at 4)))
          ∙ append-nil (opened (deeds m.log))
          ∙ opened-deeds m.log;
    }
