-- ===== src/Server/Closing/Shutdown.antt =====
-- What `close_server` does whatever fails, and what its result says.
use kierki_sik.Prelude.{
  ℕ, suc, ◌≡◌, refl, ap, ◌∙◌, List, ◌∷◌, ◌++◌, map, Bool, true, false, ◌||◌, not, Option, Bytes,
  length,
}
use kierki_sik.Server.{end_signal, answer, later}
use kierki_sik.Server.Closing.{
  Descriptor, pipes_at, Act, closes, tells, joins_connections, Main, stop_connections, tell_client,
  join_clients, close_fds, close_server,
}
use kierki_sik.Server.Closing.Phases.{
  deeds, thrown, refused, later_joins, joined_clients, is_text, Phase, next-Phase, same-Phase,
}
use kierki_sik.Server.Closing.Steps.{
  tell_clients-Phase, stop_connections-Phase, join_clients-Phase, close_fds-Phase, report_end-Phase,
  thrown_next, told_clients,
}

-- The end of the server, for the answers to its writes and joins: who is to be told what, which
-- threads are to be joined, whether each try succeeds, and what is closed.
abbrev pub shutdown : List ℕ → List Bool → List (Option Bytes) → List Act
shutdown client_threads writes joined =
    tells 4 end_signal (answer writes)
    ∷ joins_connections (not (thrown 1 joined))
    ∷ (told_clients (later writes)
        ++ joined_clients client_threads (later_joins joined)
        ++ map closes (pipes_at 0 ++ pipes_at 1 ++ pipes_at 2 ++ pipes_at 3 ++ pipes_at 4))

-- The answers that make the closing fail: a join that throws, a write to a client's thread that is
-- refused, or a message to print.
abbrev pub spoiled : Bytes → List ℕ → Main → Bool
spoiled message client_threads m =
    thrown (suc (length client_threads)) m.joined || (refused 4 (later m.writes) || is_text message)

gather : (a t r x : Bool) → a || (r || (t || (false || x))) ≡ (a || t) || (r || x)
gather true t r x = refl
gather false true true x = refl
gather false true false x = refl
gather false false r x = refl

close_at :
    (fds : List Descriptor) (m : Main) {ws : List Bool} {js : List (Option Bytes)}
    → m.writes ≡ ws
    → m.joined ≡ js
    → Phase m (close_fds fds m) (map closes fds) false ws js
close_at fds m e d = same-Phase (close_fds-Phase fds m) refl refl e d

close_pipes-Phase :
    (m : Main)
    → Phase m
        (close_fds (pipes_at 4) (
          close_fds
            (pipes_at 3)
            (close_fds (pipes_at 2) (close_fds (pipes_at 1) (close_fds (pipes_at 0) m)))))
        (map closes (pipes_at 0 ++ pipes_at 1 ++ pipes_at 2 ++ pipes_at 3 ++ pipes_at 4))
        false
        m.writes
        m.joined
close_pipes-Phase m =
    let p0 = close_at (pipes_at 0) m refl refl in
    let p1 = close_at (pipes_at 1) _ p0.writes_left p0.joins_left in
    let p2 = close_at (pipes_at 2) _ p1.writes_left p1.joins_left in
    let p3 = close_at (pipes_at 3) _ p2.writes_left p2.joins_left in
    let p4 = close_at (pipes_at 4) _ p3.writes_left p3.joins_left in
    next-Phase p0 (next-Phase p1 (next-Phase p2 (next-Phase p3 p4)))

-- Whatever fails, closing the server tries to tell the connection thread and the four clients' threads
-- to end, tries to join the connection thread and then every client's thread, each once and whether
-- the tries before succeeded or not, and only then closes both ends of each of the ten pipes, once;
-- besides it only prints. The result is 1 exactly if a join threw, a write to one of the four threads
-- was refused, or an error message was given; a refused write to the connection thread does not count.
pub close_server-shutdown :
    (message : Bytes) (client_threads : List ℕ) (m : Main)
    → (deeds (close_server message client_threads m).log
        ≡ deeds m.log ++ shutdown client_threads m.writes m.joined)
      × ((close_server message client_threads m).b_did_something_fail
          ≡ spoiled message client_threads m)
unfolding close_server
close_server-shutdown message client_threads m =
    let stop = stop_connections-Phase (record m { b_did_something_fail = false }) in
    let stopped = stop_connections (record m { b_did_something_fail = false }) in
    let tell =
      same-Phase (tell_clients-Phase stopped) (ap told_clients stop.writes_left)
        (ap (refused 4) stop.writes_left) refl stop.joins_left in
    let told = tell_client 3 (tell_client 2 (tell_client 1 (tell_client 0 stopped))) in
    let joining =
      same-Phase (join_clients-Phase client_threads told)
        (ap (joined_clients client_threads) tell.joins_left)
        (ap (thrown (length client_threads)) tell.joins_left) refl refl in
    let joined = join_clients client_threads told in
    let all = next-Phase stop (
      next-Phase tell (
        next-Phase joining (next-Phase (close_pipes-Phase joined) (report_end-Phase message _)))) in
    (
      all.done,
      all.failed
          ∙ gather (thrown 1 m.joined) (thrown (length client_threads) (later_joins m.joined))
              (refused 4 (later m.writes)) (is_text message)
          ∙ ap (λ b. b || (refused 4 (later m.writes) || is_text message))
              (thrown_next (length client_threads) m.joined),
    )
