-- ===== src/Klient/Running/Exits.antt =====
-- How the client's main thread ends.
use kierki_sik.Prelude.{List, [], ◌∷◌, ◌++◌, Option, Bytes, codes, same, take, if◌then◌else◌}
use kierki_sik.Prelude.Int.{ℤ, negsuc}
use kierki_sik.Klient.Commands.{read_command}
use kierki_sik.Klient.Running.{
  Step, wakes_worker, Main, Exit, staying, quit, Wrote, one, zero_bytes, negative, Polled,
  shown_steps,
}
use kierki_sik.Klient.Running.Proceeds.{IsSilent, IsLast, Proceeds}

-- The poll `polled` ends the client.
abbrev Decides : Polled → Option Bytes → ℤ → List Step → Type 0
Decides polled thrown code last = IsLast thrown polled code last

-- What the poll `polled` alone leads to.
abbrev Rounds : Polled → Main → Exit → Type 0
Rounds polled m exit = Proceeds (IsSilent polled) (Decides polled) m exit

-- The main thread after a command.
abbrev commanded : Bytes → Main → Main
commanded text m = record m {
  klient = (read_command text m.klient).0;
  log = m.log ++ shown_steps (read_command text m.klient).1;
}

-- What follows a command: a card wakes the worker.
abbrev waking : Bytes → Wrote → Main → Exit
waking text wrote m =
    if same (take 1 text) (codes "!")
    then elim wrote [
      | one ↦ staying (record m { log = m.log ++ wakes_worker ∷ [] })
      | zero_bytes ↦ quit (negsuc 0) (codes "Client disconnected.") m
      | negative ↦ quit (negsuc 0) (codes "Failed to read from pipe.") m
    ]
    else staying m
