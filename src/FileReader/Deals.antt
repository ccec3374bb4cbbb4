-- ===== src/FileReader/Deals.antt =====
-- A game file is read back: the deals that it lists reach `run_game` one by one, and then the loop ends.
use kierki_sik.Prelude.{
  ℕ, zero, suc, ◌+◌, ◌<◌, ◌≡◌, ◌≢◌, refl, ap, ◌∙◌, List, [], ◌∷◌, ◌++◌, map, true, false, Option,
  some, Bytes, ne→==, take, length, All, All-append, arith,
}
use kierki_sik.Decimal.{stoi}
use kierki_sik.Cards.{Card, Rank, Suit, card_text, rank_text, suit_char, two, clubs}
use kierki_sik.Messages.Repeats.{cards_text}
use kierki_sik.Seats.{Seat, seat_text, north}
use kierki_sik.FileReader.{
  FileReader, cut_line, getline, read_hands, read, end_of_file, take_line, read_next_deal, RawDeal,
  raw_deal, read_deals, at_start,
}

-- A text without a line's end.
abbrev IsLine : Bytes → Type 0
IsLine = All (λ c. c ≢ 10)

cut_line-line : (l s : Bytes) → IsLine l → cut_line (l ++ 10 ∷ s) ≡ (l, s, true)
unfolding cut_line
cut_line-line [] s h = refl
cut_line-line (c ∷ l) s h = rw (ne→== c 10 h.0, cut_line-line l s h.1) refl

card_text-IsLine : (c : Card) → IsLine (card_text c)
card_text-IsLine c = of_parts c.rank c.suit
  where
    of_suit : (u : Suit) → suit_char u ≢ 10
    of_suit clubs = ground arith
    of_suit _ = ground arith

    of_parts : (r : Rank) (u : Suit) → IsLine (rank_text r ++ suit_char u ∷ [])
    of_parts two u = ground (arith, of_suit u)
    of_parts _ u = ground (arith, of_suit u)

cards_text-IsLine : (cs : List Card) → IsLine (cards_text cs)
cards_text-IsLine [] = tt
cards_text-IsLine (c ∷ cs) =
    All-append (λ x. x ≢ 10) (card_text c) (cards_text cs) (card_text-IsLine c)
      (cards_text-IsLine cs)

-- A deal as the game file lists it: its type, who starts, and the hands of N, E, S and W.
pub record Deal : Type 0 where
  pub trick_type : ℕ
  pub starter : Seat
  pub hands : List Card × List Card × List Card × List Card

-- The five lines of a deal, and the text behind them.
abbrev pub deal_text : Deal → Bytes → Bytes
deal_text d rest =
    let (n, e, s, w) = d.hands in
    (b'0' + d.trick_type)
    ∷ (seat_text d.starter
        ++ 10
          ∷ (cards_text n
              ++ 10 ∷ (cards_text e ++ 10 ∷ (cards_text s ++ 10 ∷ (cards_text w ++ 10 ∷ rest)))))

abbrev pub deals_text : List Deal → Bytes
deals_text [] = []
deals_text (d ∷ ds) = deal_text d (deals_text ds)

abbrev pub raw : Deal → RawDeal
raw d =
    let (n, e, s, w) = d.hands in
    (
      d.trick_type,
      seat_text d.starter,
      cards_text n ∷ cards_text e ∷ cards_text s ∷ cards_text w ∷ [],
    )

getline-line : (old l s : Bytes) → IsLine l → getline old (at_start (l ++ 10 ∷ s)) ≡ (l, at_start s)
unfolding getline
getline-line old l s h = rw (cut_line-line l s h) refl

read_hands-four :
    (old rest : Bytes) (n e s w : List Card)
    → read_hands 4 old (
        at_start (
          cards_text n
          ++ 10 ∷ (cards_text e ++ 10 ∷ (cards_text s ++ 10 ∷ (cards_text w ++ 10 ∷ rest)))))
      ≡ (cards_text n ∷ cards_text e ∷ cards_text s ∷ cards_text w ∷ [], at_start rest)
unfolding read_hands
read_hands-four old rest n e s w =
    rw
      (
        getline-line old (cards_text n) _ (cards_text-IsLine n),
        getline-line (cards_text n) (cards_text e) _ (cards_text-IsLine e),
        getline-line (cards_text e) (cards_text s) _ (cards_text-IsLine s),
        getline-line (cards_text s) (cards_text w) _ (cards_text-IsLine w),
      )
      refl

stoi_digit : (d : ℕ) → d < 10 → stoi ((b'0' + d) ∷ []) ≡ some d
unfolding stoi
stoi_digit d h = ground arith

opening_plain : (k : ℕ) (x : Seat) → IsLine ((b'0' + k) ∷ seat_text x)
opening_plain k north = ground arith
opening_plain k _ = ground arith

-- The reader that has read the deal and stands before `rest`.
abbrev pub after : Deal → Bytes → FileReader → FileReader
after d rest r = record r {
  file_stream = at_start rest;
  trick_type = d.trick_type;
  seat = seat_text d.starter;
  cards = (raw d).2;
}

one_letter : (x : Seat) → take 1 (seat_text x) ≡ seat_text x
one_letter north = refl
one_letter _ = refl

read_deal :
    (d : Deal) (rest : Bytes) (r : FileReader)
    → d.trick_type < 10
    → take_line r (getline [] (at_start (deal_text d rest))) ≡ read (after d rest r)
unfolding take_line
read_deal d rest r h =
    let (n, e, s, w) = d.hands in
    ap (take_line r) (
      getline-line [] ((b'0' + d.trick_type) ∷ seat_text d.starter) _
        (opening_plain d.trick_type d.starter))
    ∙ rw (stoi_digit d.trick_type h, take_line, one_letter d.starter)
        (ap
          (λ p. read (record r {
            file_stream = p.1;
            trick_type = d.trick_type;
            seat = seat_text d.starter;
            cards = p.0;
          }))
          (read_hands-four ((b'0' + d.trick_type) ∷ seat_text d.starter) rest n e s w))

-- The reader with the text `text` before it.
abbrev pub opened : Bytes → FileReader → FileReader
opened text r = record r { b_was_stream_opened = true; file_stream = at_start text }

pub next_deal :
    (file : Option Bytes) (d : Deal) (rest : Bytes) (r : FileReader)
    → d.trick_type < 10
    → read_next_deal file (opened (deal_text d rest) r) ≡ read (after d rest (opened [] r))
unfolding read_next_deal
next_deal file d rest r h = read_deal d rest (opened (deal_text d rest) r) h

pub next_end :
    (file : Option Bytes) (r : FileReader)
    → (r' : FileReader) × (read_next_deal file (opened [] r) ≡ end_of_file r')
unfolding read_next_deal getline cut_line take_line
next_end file r = (_, refl)

pub next_fresh :
    (text : Bytes) (r : FileReader)
    → r.b_was_stream_opened ≡ false
    → read_next_deal (some text) r ≡ read_next_deal (some text) (opened text r)
unfolding read_next_deal
next_fresh text r fresh = rw fresh refl

deals_read :
    (n : ℕ) (ds : List Deal) (file : Option Bytes) (d : Deal) (r r' : FileReader)
    → read_next_deal file r ≡ read r'
    → raw_deal r' ≡ raw d
    → read_deals n file r' ≡ some (map raw ds)
    → read_deals (suc n) file r ≡ some (map raw (d ∷ ds))
unfolding read_deals
deals_read n ds file d r r' e same_deal rest =
    rw (e, read_deals, rest) (ap (λ x. some (x ∷ map raw ds)) same_deal)

deals_end :
    (n : ℕ) (file : Option Bytes) (r r' : FileReader)
    → read_next_deal file r ≡ end_of_file r'
    → read_deals (suc n) file r ≡ some []
unfolding read_deals
deals_end n file r r' e = rw (e, read_deals) refl

read_deals-opened :
    (n : ℕ) (ds : List Deal) (file : Option Bytes) (r : FileReader)
    → All (λ d. d.trick_type < 10) ds
    → length ds < n
    → read_deals n file (opened (deals_text ds) r) ≡ some (map raw ds)
read_deals-opened zero ds file r types h = absurd (omega arith)
read_deals-opened (suc n) [] file r types h =
    let (r', e) = next_end file r in deals_end n file (opened [] r) r' e
read_deals-opened (suc n) (d ∷ ds) file r types h =
    deals_read n ds file d (opened (deals_text (d ∷ ds)) r) _
      (next_deal file d (deals_text ds) r types.0) refl
      (read_deals-opened n ds file (after d (deals_text ds) r) types.1 (omega arith))

-- The first call opens the file, and reads on like the others.
deals_fresh :
    (n : ℕ) (text : Bytes) (r : FileReader)
    → r.b_was_stream_opened ≡ false
    → read_deals (suc n) (some text) r ≡ read_deals (suc n) (some text) (opened text r)
unfolding read_deals
deals_fresh n text r fresh = rw (next_fresh text r fresh, read_deals) refl

-- A game file that lists these deals, of types below ten, gives them to the game one by one,
-- with their types, starters and hands, and then the loop ends; one read more than there are
-- deals is enough for a reader that has not opened the file yet.
pub read_deals-deals_text :
    (ds : List Deal) (r : FileReader)
    → All (λ d. d.trick_type < 10) ds
    → r.b_was_stream_opened ≡ false
    → read_deals (suc (length ds)) (some (deals_text ds)) r ≡ some (map raw ds)
read_deals-deals_text ds r types fresh =
    deals_fresh (length ds) (deals_text ds) r fresh
    ∙ read_deals-opened (suc (length ds)) ds (some (deals_text ds)) r types (omega arith)
