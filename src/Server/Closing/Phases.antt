-- ===== src/Server/Closing/Phases.antt =====
-- The phases of `close_server`: what is done in one, and whether something in it fails.
use kierki_sik.Prelude.{
  ℕ, zero, suc, ◌≡◌, refl, sym, ap, ◌∙◌, List, [], ◌∷◌, ◌++◌, append_assoc, append-nil, Bool, true,
  false, not, ◌||◌, Option, none, some, Bytes,
}
use kierki_sik.Server.{answer, later}
use kierki_sik.Server.Closing.{Act, joins, reports, Main, act, fail}

-- The log without the reports.
unfoldable pub deeds : List Act → List Act
deeds [] = []
deeds (reports message ∷ log) = deeds log
deeds (a ∷ log) = a ∷ deeds log

pub deeds-append : (xs ys : List Act) → deeds (xs ++ ys) ≡ deeds xs ++ deeds ys
unfolding deeds
deeds-append [] ys = refl
deeds-append (reports message ∷ xs) ys = deeds-append xs ys
deeds-append (a ∷ xs) ys = ap (λ l. a ∷ l) (deeds-append xs ys)

-- From `m` to `m'` these things were done.
abbrev pub Does : Main → List Act → Main → Type 0
Does m acts m' = deeds m'.log ≡ deeds m.log ++ acts

pub trans-Does :
    (m : Main) (xs : List Act) (n : Main) (ys : List Act) (o : Main)
    → Does m xs n
    → Does n ys o
    → Does m (xs ++ ys) o
trans-Does m xs n ys o e d = d ∙ ap (λ l. l ++ ys) e ∙ append_assoc (deeds m.log) xs ys

pub did : (a : Act) (m : Main) → Does m (deeds (a ∷ [])) (act a m)
did a m = deeds-append m.log (a ∷ [])

-- One of the first `n` joins throws; one of the first `n` writes is refused.
abbrev pub thrown : ℕ → List (Option Bytes) → Bool
thrown zero js = false
thrown (suc n) [] = false
thrown (suc n) (none ∷ js) = thrown n js
thrown (suc n) (some what ∷ js) = true

abbrev pub refused : ℕ → List Bool → Bool
refused zero ws = false
refused (suc n) ws = not (answer ws) || refused n (later ws)

abbrev pub later_joins : List (Option Bytes) → List (Option Bytes)
later_joins [] = []
later_joins (j ∷ js) = js

-- The tries to join the clients' threads.
abbrev pub joined_clients : List ℕ → List (Option Bytes) → List Act
joined_clients [] js = []
joined_clients (id ∷ ids) js = joins id (not (thrown 1 js)) ∷ joined_clients ids (later_joins js)

abbrev pub is_text : Bytes → Bool
is_text [] = false
is_text (c ∷ s) = true

-- A phase of the shutdown: what it does, whether something in it fails, and which answers it takes.
pub record Phase (m m' : Main) (acts : List Act) (bad : Bool) (ws : List Bool)
    (js : List (Option Bytes)) : Type 0 where
  pub done : Does m acts m'
  pub failed : m'.b_did_something_fail ≡ m.b_did_something_fail || bad
  pub writes_left : m'.writes ≡ ws
  pub joins_left : m'.joined ≡ js

pub or_true : (a : Bool) → true ≡ a || true
or_true true = refl
or_true false = refl

pub or_false : (a : Bool) → a ≡ a || false
or_false true = refl
or_false false = refl

pub or_assoc : (a b c : Bool) → (a || b) || c ≡ a || (b || c)
or_assoc true b c = refl
or_assoc false b c = refl

pub reported : (message : Bytes) (m : Main) → deeds (fail message m).log ≡ deeds m.log
unfolding deeds
reported message m = deeds-append m.log (reports message ∷ []) ∙ append-nil (deeds m.log)

pub next-Phase :
    {m n o : Main} {xs ys : List Act} {a b : Bool} {ws vs : List Bool} {js ks : List (Option Bytes)}
    → Phase m n xs a ws js
    → Phase n o ys b vs ks
    → Phase m o (xs ++ ys) (a || b) vs ks
next-Phase {m} {n} {o} {xs} {ys} {a} {b} p q = record {
  done = trans-Does m xs n ys o p.done q.done;
  failed = q.failed ∙ ap (λ x. x || b) p.failed ∙ or_assoc m.b_did_something_fail a b;
  writes_left = q.writes_left;
  joins_left = q.joins_left;
}

-- The same phase, with its result and what is left written otherwise.
pub same-Phase :
    {m n : Main} {xs ys : List Act} {a b : Bool} {ws vs : List Bool} {js ks : List (Option Bytes)}
    → Phase m n xs a ws js
    → xs ≡ ys
    → a ≡ b
    → ws ≡ vs
    → js ≡ ks
    → Phase m n ys b vs ks
same-Phase {m} p xs a ws js = record {
  done = p.done ∙ ap (λ l. deeds m.log ++ l) xs;
  failed = p.failed ∙ ap (λ x. m.b_did_something_fail || x) a;
  writes_left = p.writes_left ∙ ws;
  joins_left = p.joins_left ∙ js;
}

pub nothing-Phase :
    (m : Main) {ws : List Bool} {js : List (Option Bytes)}
    → m.writes ≡ ws
    → m.joined ≡ js
    → Phase m m [] false ws js
nothing-Phase m e d = record {
  done = sym (append-nil (deeds m.log));
  failed = or_false m.b_did_something_fail;
  writes_left = e;
  joins_left = d;
}
