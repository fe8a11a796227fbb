-- ===== src/Watch/Stream/Tests.antt =====
-- A reader on a stream of four entries, one of them malformed and one filtered out.
use yaghan.Base.{
  ℕ, ◌+◌, ◌≤◌, ◌≡◌, ◌≢◌, refl, sym, true, false, Option, none, some, List, [], ◌∷◌, ◌++◌, not,
  arith, nat_eq, ◌==◌,
}
use mathlib.Core.List.{append-nil}
use yaghan.Watch.Stream.{
  Position, after, max_seen, Message, text, XReply, messages, nothing, unreachable, done, Outside,
  Reader, Ascending, newer, read_loop, read_stream,
}
use yaghan.Watch.Stream.Events.{between}
use yaghan.Watch.Stream.Delivery.{read_loop-between, KeepsUp}

abbrev entries : List Message
entries =
    record { id = 3; event = some (text (7 ∷ [])) }
    ∷ record { id = 5; event = none }
    ∷ record { id = 8; event = some (text (0 ∷ [])) }
    ∷ record { id = 9; event = some (text (4 ∷ [])) }
    ∷ []

abbrev first_byte : List ℕ → Option ℕ
first_byte [] = none
first_byte (b ∷ bytes) = some b

abbrev reply_of : List Message → XReply
reply_of [] = nothing
reply_of (m ∷ ms) = messages (m ∷ ms)

-- A read leaves the stream as it is; the world counts the rounds.
abbrev read_from : Position → XReply
read_from (after k) = reply_of (newer k (newer 3 entries))
read_from max_seen = nothing

reply_of_messages : (l ms : List Message) → reply_of l ≡ messages ms → ms ≡ l
reply_of_messages [] ms e = cc
reply_of_messages (m ∷ l) ms e = cc

reply_of-reachable : (l : List Message) → reply_of l ≢ unreachable
reply_of-reachable [] e = cc
reply_of-reachable (m ∷ l) e = cc

answered : (p : Position) → read_from p ≢ unreachable
answered max_seen e = cc
answered (after k) e = reply_of-reachable (newer k (newer 3 entries)) e

still : (w : ℕ) → (more : List Message) × (entries ≡ entries ++ more) × Ascending 9 more × (9 ≤ 9)
still w = ([], sym (append-nil entries), tt, omega arith)

abbrev outside : Outside ℕ
outside = record {
  World = ℕ;
  log = λ w. entries;
  newest = λ w. 9;
  trimmed = λ w. 3;
  closed = λ w. false;
  cancelled = λ w. false;
  xread = λ p w. (w + 1, read_from p);
  get_id = λ w. (w, some 3);
  last_entry = λ w. (w, some 9);
  call = λ c w. (w + 1, done);
  decode_base64 = λ t. some t;
  unmarshal = first_byte;
  set_event_id = λ e id. e;
  filter = λ e. not (e == 0);
  log_ascending = λ w. omega arith;
  log_bounded = λ w. omega arith;
  xread_grows = λ p w. still w;
  call_grows = λ c w. still w;
  xread_after = λ k w ms e. reply_of_messages (newer k (newer 3 entries)) ms e;
}

abbrev fresh : Reader outside
fresh = record { world = 0; position = after 3; acknowledged = []; registered = true }

run : (read_loop outside 2 fresh).acknowledged ≡ 4 ∷ []
unfolding read_loop
run = refl

position-injective : {j k : ℕ} → after j ≡ after k → j ≡ k
position-injective e = cc

keeps_up : KeepsUp outside 2 fresh
unfolding KeepsUp read_stream
keeps_up = (
  λ k e. let same : 3 ≡ k = position-injective e in omega (arith, same),
  λ fine. (
    λ k e. let same : 9 ≡ k = position-injective e in omega (arith, same),
    (λ fine. tt),
    λ e bad. tt,
  ),
  λ e bad. cc,
)

read_loop-between_example :
    (j : ℕ) × (3 ≤ j)
    × ((read_loop outside 2 fresh).position ≡ after j)
    × ((read_loop outside 2 fresh).acknowledged ≡ [] ++ between outside 3 j entries)
read_loop-between_example =
    read_loop-between outside 2 3 fresh (λ p w. answered p) (omega arith) refl keeps_up
