-- ===== src/Watch/Stream.antt =====
-- api-server/pkg/watch/watcher.go and api-server/pkg/watch/providers/redis/watch.go: the loop that reads
-- a Redis stream for one watcher, hands it the events one by one and keeps the id of the last event that
-- was acknowledged. Redis, the consumer of the watcher and the package proto are the interface Outside.
pub mod Events
pub mod Delivery
mod Tests
use yaghan.Base.{
  ℕ, zero, suc, ◌≤◌, ◌<◌, ◌≡◌, Bool, true, false, Option, none, some, List, [], ◌∷◌, ◌++◌,
  if◌then◌else◌, ltb, All, ◌||◌,
}
use yaghan.Base.Text.{Text}

-- Entry ids by their place in the order that Redis gives them.
pub data Position : Type 0 where
  after : ℕ → Position
  max_seen : Position

-- The field `event` of an entry.
pub data Value : Type 0 where
  text : Text → Value
  other_type : Value

pub record Message : Type 0 where
  pub id : ℕ
  pub event : Option Value

pub data XReply : Type 0 where
  messages : List Message → XReply
  nothing unreachable : XReply

-- The other calls of the loop: a wait, an event offered to the watcher's buffer, a wait for its
-- acknowledgement, a write of the last id, and the end of the watcher.
pub data Call (E : Type 0) : Type 0 where
  backoff await close : Call E
  offer : E → Call E
  set_id : ℕ → Call E

pub data Reply : Type 0 where
  done watcher_closed deadline_exceeded parent_cancelled refused : Reply

-- Entries in the order of their ids, all behind a given one.
abbrev pub Ascending : ℕ → List Message → Type 0
Ascending k [] = Unit
Ascending k (m ∷ ms) = (k < m.id) × Ascending m.id ms

-- The entries behind one.
abbrev pub newer : ℕ → List Message → List Message
newer k [] = []
newer k (m ∷ ms) = let rest = newer k ms in if ltb k m.id then m ∷ rest else rest

-- `log` is everything that was ever added to the stream, of which the entries up to `trimmed` are gone,
-- and `newest` the last id that Redis gave. Any call may find that others have added or trimmed entries.
pub record Outside (E : Type 0) : Type 1 where
  pub World : Type 0
  pub log : World → List Message
  pub newest : World → ℕ
  pub trimmed : World → ℕ
  pub closed : World → Bool
  pub cancelled : World → Bool
  pub xread : Position → World → World × XReply
  pub get_id : World → World × Option ℕ
  pub last_entry : World → World × Option ℕ
  pub call : Call E → World → World × Reply
  pub decode_base64 : Text → Option (List ℕ)
  pub unmarshal : List ℕ → Option E
  pub set_event_id : E → ℕ → E
  pub filter : E → Bool
  pub log_ascending : (w : World) → Ascending 0 (log w)
  pub log_bounded : (w : World) → All (λ m. m.id ≤ newest w) (log w)
  pub xread_grows :
      (p : Position) (w : World)
      → (more : List Message) × (log (xread p w).0 ≡ log w ++ more)
        × Ascending (newest w) more
        × (newest w ≤ newest (xread p w).0)
  pub call_grows :
      (c : Call E) (w : World)
      → (more : List Message) × (log (call c w).0 ≡ log w ++ more)
        × Ascending (newest w) more
        × (newest w ≤ newest (call c w).0)
  pub xread_after :
      (k : ℕ) (w : World) (ms : List Message)
      → (xread (after k) w).1 ≡ messages ms
      → ms ≡ newer k (newer (trimmed (xread (after k) w).0) (log (xread (after k) w).0))

-- `acknowledged` lists the events that the consumer has acknowledged, in order; `registered` says
-- whether the watcher is in the registry of the stream.
pub record Reader {E : Type 0} (o : Outside E) : Type 0 where
  pub world : Outside.World o
  pub position : Position
  pub acknowledged : List E
  pub registered : Bool

pub data ReadError : Type 0 where
  read_failed : ReadError
  not_delivered : Reply → ReadError

module _ {E : Type 0} (o : Outside E) where
  open o use {
    World, closed, cancelled, xread, get_id, last_entry, call, decode_base64, unmarshal,
    set_event_id, filter,
  }

  -- `none` for a malformed message, which is skipped.
  unfoldable pub decode_wire : Option (List ℕ) → Option E
  decode_wire none = none
  decode_wire (some wire) = unmarshal wire

  unfoldable pub decode_event : Option Value → Option E
  unfolding decode_wire
  decode_event (some (text encoded)) = decode_wire (decode_base64 encoded)
  decode_event (some other_type) = none
  decode_event none = none

  -- What a call leaves: the reader with the new world, and the reply.
  unfoldable pub make : Call E → Reader o → Reader o × Reply
  make c r = let answer = call c r.world in (record r { world = answer.0 }, answer.1)

  unfoldable pub evict_watcher : Reader o → Reader o
  unfolding make
  evict_watcher r = (make close (record r { registered = false })).0

  -- Where a deadline has passed, and not because the caller's context ended, the watcher goes.
  unfoldable pub give_up : Reply → Reader o → Reader o
  unfolding evict_watcher
  give_up deadline_exceeded r = if cancelled r.world then r else evict_watcher r
  give_up reply r = r

  -- Receive: `done` is a nil error.
  unfoldable pub receive : E → Reader o → Reader o × Reply
  unfolding make
  receive event r =
      if closed r.world
      then (r, watcher_closed)
      else if filter event
      then make (offer event) r
      else (r, done)

  -- The acknowledged event is on the list unless the filter has kept it from the consumer.
  unfoldable pub note : E → Reader o → Reader o
  note event r =
      if filter event then record r { acknowledged = r.acknowledged ++ event ∷ [] } else r

  unfoldable pub acknowledge : E → ℕ → Reader o × Reply → Reader o × Option ReadError
  unfolding make note give_up
  acknowledge event id (r, done) = ((make (set_id id) (note event r)).0, none)
  acknowledge event id (r, reply) = (give_up reply r, some (not_delivered reply))

  unfoldable pub deliver_received : E → ℕ → Reader o × Reply → Reader o × Option ReadError
  unfolding acknowledge make give_up
  deliver_received event id (r, done) = acknowledge event id (make await r)
  deliver_received event id (r, reply) = (give_up reply r, some (not_delivered reply))

  unfoldable pub deliver : E → ℕ → Reader o → Reader o × Option ReadError
  unfolding deliver_received receive
  deliver event id r =
      let event' = set_event_id event id in deliver_received event' id (receive event' r)

  -- The loop over the messages of a read; the position is that of the last event delivered.
  unfoldable pub deliver_all : List Message → Reader o → Reader o × Option ReadError
  unfolding decode_event deliver
  deliver_all [] r = (r, none)
  deliver_all (m ∷ ms) r = elim (decode_event m.event) [
    | none ↦ deliver_all ms r
    | some event ↦
        let delivered = deliver event m.id r in
        elim delivered.1 [
          | some e ↦ delivered
          | none ↦ deliver_all ms (record delivered.0 { position = after m.id })
        ]
  ]

  unfoldable pub read_stream : Reader o → Reader o × Option ReadError
  unfolding deliver_all
  read_stream r =
      let reply = xread r.position r.world in
      let r' = record r { world = reply.0 } in
      elim reply.1 [
        | messages ms ↦ deliver_all ms r'
        | nothing ↦ (r', none)
        | unreachable ↦ (record r' { position = max_seen }, some read_failed)
      ]

  abbrev pub is_watcher_closed : ReadError → Bool
  is_watcher_closed (not_delivered watcher_closed) = true
  is_watcher_closed e = false

  abbrev pub ended : Reader o → Bool
  ended r = cancelled r.world || closed r.world

  -- At most so many rounds of the loop, which ends by itself when the watcher is closed or the context
  -- cancelled.
  unfoldable pub read_loop : ℕ → Reader o → Reader o
  unfolding read_stream
  read_loop zero r = r
  read_loop (suc n) r = elim (ended r) [
    | true ↦ r
    | false ↦
        let round = read_stream r in
        elim round.1 [
          | none ↦ read_loop n round.0
          | some e ↦ elim (ended round.0 || is_watcher_closed e) [
            | true ↦ round.0
            | false ↦ read_loop n (make backoff round.0).0
          ]
        ]
  ]

  -- Where the loop starts: behind the last event that a watcher of this id has acknowledged, or else at
  -- the end of the stream.
  unfoldable pub stream_tail : World → World × Position
  stream_tail w =
      let entry = last_entry w in (entry.0, elim entry.1 [ none ↦ max_seen | some id ↦ after id ])

  unfoldable pub start_after : World → World × Position
  unfolding stream_tail
  start_after w =
      let stored = get_id w in
      elim stored.1 [ none ↦ stream_tail stored.0 | some id ↦ (stored.0, after id) ]

  -- The reader of a watcher, once Watch has returned.
  unfoldable pub start : World → Reader o
  unfolding start_after
  start w =
      let at = start_after w in
      record { world = at.0; position = at.1; acknowledged = []; registered = true }
