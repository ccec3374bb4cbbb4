-- ===== src/Server/Kept.antt =====
-- What a client's thread leaves alone: the cards of the deal, in hands or on the table, and all that
-- the server's main thread keeps for itself.
pub mod Cards
pub mod Steps
pub mod Rounds
pub mod Thread
use kierki_sik.Prelude.{
  ◌≡◌, refl, ◌∙◌, List, [], ◌∷◌, ◌++◌, Bool, true, false, if◌then◌else◌, Bytes, ap,
}
use mathlib.Core.List.{Perm}
use mathlib.Core.List.Perm
use kierki_sik.Server.{Serwer, World, Flow, going, ended, crashed, ◌>>=◌}

abbrev pub in_hands : List (List Bytes) → List Bytes
in_hands [] = []
in_hands (hand ∷ hands) = hand ++ in_hands hands

-- The cards on the table and in the hands.
abbrev pub all_cards : Serwer → List Bytes
all_cards s = s.cards_on_table ++ in_hands s.cards

-- The state without what the clients' threads share: the seats, the table, the hands, the turn and
-- the barrier. The scores, the tricks, the deal and its type are left.
abbrev pub own_part : Serwer → Serwer
own_part s = record s {
  occupied = 0;
  seats_status = [];
  cards_on_table = [];
  cards = [];
  player_turn = [];
  b_is_barrier_ongoing = false;
  barrier_messages = [];
}

abbrev pub Kept : Serwer → Serwer → Type 0
Kept s s' = Perm (all_cards s) (all_cards s') × (own_part s ≡ own_part s')

pub refl-Kept : (s : Serwer) → Kept s s
refl-Kept s = (Perm.rfl, refl)

pub trans-Kept : (s t u : Serwer) → Kept s t → Kept t u → Kept s u
trans-Kept s t u a b = (Perm.trans a.0 b.0, a.1 ∙ b.1)

abbrev pub last_world : Flow → World
last_world (going w) = w
last_world (ended w) = w
last_world (crashed w) = w

-- However the flow ends, it has kept what `s` holds.
unfoldable pub Keeps : Serwer → Flow → Type 0
Keeps s f = Kept s (last_world f).server

pub keeps : (s : Serwer) (f : Flow) → Kept s (last_world f).server → Keeps s f
unfolding Keeps
keeps s f kept = kept

pub going-Keeps : (w : World) → Keeps w.server (going w)
going-Keeps w = keeps w.server (going w) (refl-Kept w.server)

pub from-Keeps : (s t : Serwer) (f : Flow) → Kept s t → Keeps t f → Keeps s f
unfolding Keeps
from-Keeps s t f kept more = trans-Kept s t (last_world f).server kept more

pub bind-Keeps :
    (s : Serwer) (f : Flow) (g : World → Flow)
    → Keeps s f
    → ((w : World) → Keeps w.server (g w))
    → Keeps s (f >>= g)
unfolding Keeps
bind-Keeps s (going w) g kept more = trans-Kept s w.server (last_world (g w)).server kept (more w)
bind-Keeps s (ended w) g kept more = kept
bind-Keeps s (crashed w) g kept more = kept

pub if-Keeps :
    (s : Serwer) (b : Bool) (f g : Flow) → Keeps s f → Keeps s g → Keeps s (if b then f else g)
if-Keeps s true f g kf kg = kf
if-Keeps s false f g kf kg = kg
