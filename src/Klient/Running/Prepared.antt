-- ===== src/Klient/Running/Prepared.antt =====
-- Which descriptors `prepare_client` leaves open.
use kierki_sik.Prelude.{
  ◌≡◌, refl, List, [], ◌∷◌, ◌++◌, Bool, true, false, not, ◌&&◌, ◌||◌, Bytes, Option, none, some,
  if◌then◌else◌, ◌==◌, ℕ,
}
use kierki_sik.Klient.Running.{
  Fd, client_read_pipe, client_write_pipe, socket, Step, opens, closes, read_ends, write_ends,
  Answers, prepare_client, reach_server, greet,
}

same_fd : Fd → Fd → Bool
same_fd (client_read_pipe i) (client_read_pipe j) = i == j
same_fd (client_write_pipe i) (client_write_pipe j) = i == j
same_fd socket socket = true
same_fd _ _ = false

-- The open descriptors without `fd`.
without : Fd → List Fd → List Fd
unfolding same_fd
without fd [] = []
without fd (x ∷ xs) = let rest = without fd xs in if same_fd fd x then rest else x ∷ rest

-- What is open after the steps, from what was open before.
unfoldable pub left_open : List Fd → List Step → List Fd
unfolding without
left_open fds [] = fds
left_open fds (opens fd ∷ log) = left_open (fds ++ fd ∷ []) log
left_open fds (closes fd ∷ log) = left_open (without fd fds) log
left_open fds (_ ∷ log) = left_open fds log

-- What should be open: both pipes and the socket.
abbrev pub all_ends : List Fd
all_ends = read_ends ++ write_ends ++ socket ∷ []

abbrev is_some {ℓ} : {A : Type ℓ} → Option A → Bool
is_some none = false
is_some (some a) = true

-- The failures that leave the pipes open: no socket, or no greeting, or no thread.
abbrev pub forgets : Answers → Bool
forgets a =
    a.made_read
    && a.made_write
    && is_some a.resolved
    && (not a.created || (a.connected && (not a.greeted || is_some a.thrown)))

answered : Bool → Bool → Option ℕ → Bool → Bool → Bool → Option Bytes → Answers
answered r w resolved c n g thrown = record {
  made_read = r;
  made_write = w;
  resolved = resolved;
  created = c;
  connected = n;
  greeted = g;
  thrown = thrown;
}

-- The descriptors that stay open.
abbrev pub kept_open : Answers → List Fd
kept_open a =
    if (prepare_client a).0 then all_ends else if forgets a then read_ends ++ write_ends else []

answered-left_open :
    (r w : Bool) (resolved : Option ℕ) (c n g : Bool) (thrown : Option Bytes)
    → left_open [] (prepare_client (answered r w resolved c n g thrown)).1
      ≡ kept_open (answered r w resolved c n g thrown)
unfolding prepare_client reach_server greet left_open without same_fd answered
answered-left_open false w resolved c n g thrown = refl
answered-left_open true false resolved c n g thrown = refl
answered-left_open true true none c n g thrown = refl
answered-left_open true true (some v) false n g thrown = refl
answered-left_open true true (some v) true false g thrown = refl
answered-left_open true true (some v) true true false thrown = refl
answered-left_open true true (some v) true true true none = refl
answered-left_open true true (some v) true true true (some what) = refl

-- A client that is prepared has both pipes and the socket open. One that is not has closed its socket;
-- it leaves both ends of both pipes open exactly if the socket cannot be created, IAM cannot be
-- written or the thread cannot be started, and nothing after any other failure.
pub prepare_client-left_open : (a : Answers) → left_open [] (prepare_client a).1 ≡ kept_open a
unfolding answered
prepare_client-left_open a =
    answered-left_open a.made_read a.made_write a.resolved a.created a.connected a.greeted a.thrown
