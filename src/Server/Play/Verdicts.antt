-- ===== src/Server/Play/Verdicts.antt =====
-- What `parse_message` does with a play of the client whose turn it is.
use kierki_sik.Prelude.{
  ℕ, ◌≡◌, refl, ◌∙◌, subst, [], ◌∷◌, ◌++◌, true, false, some, Bytes, codes, ℕ_discrete, set,
}
use kierki_sik.Cards.{Card, card_text}
use kierki_sik.Regex.{Boost, trick_client_check}
use kierki_sik.Messages.{trick_message, wrong_message}
use kierki_sik.Messages.TrickNumbers.{IsTrickNr}
use kierki_sik.Messages.Language.{trick_client_check_iff}
use kierki_sik.Server.{
  World, going, seat_index, send, signal, sent, notified, card_play, answer, later,
}
use kierki_sik.Server.Play.{
  split_play, erase_card, hand_of, accept_card, refuse_card, judge_card, play_in_turn,
  parse_message, restart_timeout,
}
use kierki_sik.Server.Play.Split.{split_own, split_other}
use kierki_sik.Server.Play.Legal.{IsLegal, AllCards, judge_legal, judge_illegal, judge_other}

-- What a legal play leaves behind: the card has moved from the hand to the table, nobody is to
-- move, the server's main thread is told, and the client is no longer awaited.
abbrev pub played : Bytes → World → World
played card w = record w {
  server = record (w.server) {
    cards = set w.server.cards (seat_index w.client.seat) (erase_card card (hand_of w));
    cards_on_table = w.server.cards_on_table ++ card ∷ [];
    player_turn = codes "x";
  };
  client = record (w.client) { b_was_destined_to_play = false; timeout_copy = w.server.timeout };
  events = w.events ++ notified (seat_index w.client.seat) card_play ∷ [];
  answers = later w.answers;
}

-- A message that is answered with WRONG.
abbrev pub told_wrong : ℕ → World → World
told_wrong current w = record w {
  client = record (w.client) { timeout_copy = w.server.timeout };
  events = w.events ++ sent w.client.client_fd (wrong_message current) ∷ [];
  answers = later w.answers;
}

abbrev pub play_text : ℕ → Card → Bytes
play_text n c = trick_message n (card_text c ∷ [])

pub check_play :
    (boost : Boost) (n : ℕ) (c : Card)
    → IsTrickNr n
    → trick_client_check boost (play_text n c) ≡ true
check_play boost n c r = (trick_client_check_iff boost (play_text n c)).1 (((n, r), c), refl)

parse_in_turn :
    (boost : Boost) (n current : ℕ) (c : Card) (w : World)
    → IsTrickNr n
    → w.client.b_was_destined_to_play ≡ true
    → parse_message boost (play_text n c) current w
      ≡ play_in_turn (play_text n c) current (restart_timeout w)
unfolding parse_message
parse_in_turn boost n current c w r turn = simp (check_play boost n c r, turn)

play_in_turn_cut :
    (message : Bytes) (current m : ℕ) (t : Bytes) (w : World)
    → split_play current message ≡ some (m, t)
    → play_in_turn message current w ≡ judge_card current m t w
unfolding play_in_turn
play_in_turn_cut message current m t w e = rw (e, play_in_turn)

accept_card_told :
    (card : Bytes) (w : World)
    → answer w.answers ≡ true
    → accept_card card (restart_timeout w) ≡ going (played card w)
unfolding accept_card signal
accept_card_told card w told = rw told

refuse_card_told :
    (current : ℕ) (w : World)
    → answer w.answers ≡ true
    → refuse_card current (restart_timeout w) ≡ going (told_wrong current w)
unfolding refuse_card send
refuse_card_told current w told = rw told

-- A client that is to play the current trick, 1 to 13, and sends a card that it may play by the
-- rules has the card accepted, when the main thread's pipe takes a byte.
pub parse_message_legal :
    (boost : Boost) (n : ℕ) (c : Card) (w : World)
    → IsTrickNr n
    → w.client.b_was_destined_to_play ≡ true
    → answer w.answers ≡ true
    → IsLegal w.server.cards_on_table (hand_of w) (card_text c)
    → parse_message boost (play_text n c) n w ≡ going (played (card_text c) w)
parse_message_legal boost n c w r turn told legal =
    parse_in_turn boost n n c w r turn
    ∙ play_in_turn_cut (play_text n c) n n (card_text c) (restart_timeout w) (split_own n c r)
    ∙ judge_legal n (card_text c) (restart_timeout w) legal
    ∙ accept_card_told (card_text c) w told

refused :
    (boost : Boost) (n current : ℕ) (c : Card) (w : World)
    → IsTrickNr n
    → IsTrickNr current
    → AllCards (hand_of w)
    → ¬ ((n ≡ current) × IsLegal w.server.cards_on_table (hand_of w) (card_text c))
    → play_in_turn (play_text n c) current (restart_timeout w)
      ≡ refuse_card current (restart_timeout w)
refused boost n current c w r k all bad = elim (ℕ_discrete n current) [
  | yes e ↦
      play_in_turn_cut (play_text n c) current current (card_text c) (restart_timeout w)
        (subst (λ m. split_play m (play_text n c) ≡ some (m, card_text c)) e (split_own n c r))
      ∙ judge_illegal current (card_text c) (restart_timeout w) (λ legal. bad (e, legal))
  | no ne ↦
      let (m, t, e, h) = split_other n current c r k ne in
      play_in_turn_cut (play_text n c) current m t (restart_timeout w) e
      ∙ judge_other current m t (restart_timeout w) all h
]

-- A client that is to play, in a trick from 1 to 13 and with cards of the deck in hand, and that
-- sends a card for another trick, or a card that it may not play, is answered with WRONG if the
-- write succeeds, and the shared state stays as it was.
pub parse_message_refused :
    (boost : Boost) (n current : ℕ) (c : Card) (w : World)
    → IsTrickNr n
    → IsTrickNr current
    → w.client.b_was_destined_to_play ≡ true
    → answer w.answers ≡ true
    → AllCards (hand_of w)
    → ¬ ((n ≡ current) × IsLegal w.server.cards_on_table (hand_of w) (card_text c))
    → parse_message boost (play_text n c) current w ≡ going (told_wrong current w)
parse_message_refused boost n current c w r k turn told all bad =
    parse_in_turn boost n current c w r turn
    ∙ refused boost n current c w r k all bad
    ∙ refuse_card_told current w told
