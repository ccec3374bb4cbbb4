-- ===== src/Sockets/Setup.antt =====
-- common.cpp, `setup_server_socket`: the calls that make a listening socket. What they answer is an
-- argument; a failed `close` only prints, and is not modelled.
use kierki_sik.Prelude.{
  ℕ, ◌≡◌, refl, List, [], ◌∷◌, Bool, true, false, not, ◌&&◌, Option, none, some, Bytes, codes,
  if◌then◌else◌,
}
use kierki_sik.Prelude.Int.{ℤ, pos, negsuc}

pub data Call : Type 0 where
  -- `setsockopt` with SO_REUSEADDR set and IPV6_V6ONLY cleared, `bind` and `listen`.
  sets_reuseaddr clears_v6only binds listens : ℕ → Call
  closes : ℕ → Call
  says : Bytes → Call

-- The descriptor that `socket` gives, and whether each later call succeeds.
pub record SetupAnswers : Type 0 where
  pub created : Option ℕ
  pub reuse_set : Bool
  pub v6only_set : Bool
  pub bound : Bool
  pub listening : Bool

-- After a call that failed.
abbrev pub give_up : ℤ → Bytes → ℕ → ℤ × List Call
give_up result error_message server_fd = (result, says error_message ∷ closes server_fd ∷ [])

abbrev after : Call → ℤ × List Call → ℤ × List Call
after call (result, calls) = (result, call ∷ calls)

unfoldable pub setup_socket : ℕ → SetupAnswers → ℤ × List Call
setup_socket server_fd a = after (sets_reuseaddr server_fd) (
    if not a.reuse_set
    then give_up (pos 1) (codes "Failed to set socket options.") server_fd
    else after (clears_v6only server_fd) (
        if not a.v6only_set
        then give_up (pos 1) (codes "Failed to set socket options.") server_fd
        else after (binds server_fd) (
            if not a.bound
            then give_up (negsuc 0) (codes "Failed to bind server socket.") server_fd
            else after (listens server_fd) (
                if not a.listening
                then give_up (negsuc 0) (codes "Failed to listen on server socket.") server_fd
                else (pos server_fd, [])))))

unfoldable pub setup_server_socket : SetupAnswers → ℤ × List Call
unfolding setup_socket
setup_server_socket a = elim a.created [
  | none ↦ (negsuc 0, says (codes "Failed to create socket.") ∷ [])
  | some server_fd ↦ setup_socket server_fd a
]

-- The descriptors that the calls close.
abbrev pub closed : List Call → List ℕ
closed [] = []
closed (closes fd ∷ calls) = fd ∷ closed calls
closed (_ ∷ calls) = closed calls

-- The result for the descriptor `fd`: the descriptor, 1 after a failed `setsockopt`, or -1.
abbrev pub setup_result : ℕ → SetupAnswers → ℤ
setup_result fd a =
    if not (a.reuse_set && a.v6only_set)
    then pos 1
    else if a.bound && a.listening
    then pos fd
    else negsuc 0

answers_of : Option ℕ → Bool → Bool → Bool → Bool → SetupAnswers
answers_of created r v b l = record {
  created = created;
  reuse_set = r;
  v6only_set = v;
  bound = b;
  listening = l;
}

-- The socket is made and listens, and all calls but `socket` succeed.
abbrev pub succeeds : SetupAnswers → Bool
succeeds a = a.reuse_set && a.v6only_set && a.bound && a.listening

setup_socket_lem :
    (fd : ℕ) (created : Option ℕ) (r v b l : Bool)
    → ((setup_socket fd (answers_of created r v b l)).0
        ≡ setup_result fd (answers_of created r v b l))
      × (closed (setup_socket fd (answers_of created r v b l)).1
          ≡ (if succeeds (answers_of created r v b l) then [] else fd ∷ []))
unfolding setup_socket answers_of
setup_socket_lem fd created false v b l = (refl, refl)
setup_socket_lem fd created true false b l = (refl, refl)
setup_socket_lem fd created true true false l = (refl, refl)
setup_socket_lem fd created true true true false = (refl, refl)
setup_socket_lem fd created true true true true = (refl, refl)

-- A set-up of the server's socket returns its descriptor, and leaves it open, exactly if every call
-- succeeds; else it closes the socket once and returns -1, or 1 after a failed `setsockopt`.
pub setup_server_socket-setup_result :
    (fd : ℕ) (a : SetupAnswers)
    → a.created ≡ some fd
    → ((setup_server_socket a).0 ≡ setup_result fd a)
      × (closed (setup_server_socket a).1 ≡ (if succeeds a then [] else fd ∷ []))
unfolding setup_server_socket answers_of
setup_server_socket-setup_result fd a e =
    rw e (setup_socket_lem fd (some fd) a.reuse_set a.v6only_set a.bound a.listening)
