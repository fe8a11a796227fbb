-- ===== src/Watch/Stream/Delivery.antt =====
-- The read loop of api-server/pkg/watch/providers/redis/watch.go against the contents of the stream.
pub mod Single
use yaghan.Base.{
  ℕ, zero, suc, ◌≤◌, ◌<◌, ◌≡◌, ◌≢◌, refl, sym, ap, ◌∙◌, ◌⊎◌, inl, inr, Bool, true, false, Option,
  none, some, List, [], ◌∷◌, ◌++◌, if◌then◌else◌, ltb, leb, All, ◌||◌, arith, Bool-cases,
  Option-cases,
}
use mathlib.Core.List.{append_assoc, append-nil}
use yaghan.Watch.Stream.{
  Position, after, max_seen, Message, XReply, messages, nothing, unreachable, Outside, Reader,
  Ascending, newer, deliver, deliver_all, read_stream, read_loop, decode_event, make, backoff,
  ReadError, ended, is_watcher_closed,
}
use mathlib.Core.Path.{subst}
use yaghan.Watch.Stream.Events.{
  between, between-split, between_self, event_of, between-skip, between-taken, between-newer,
  Ascending-weaken, newer-Ascending, newer-bounded, newer-kept,
}
use yaghan.Watch.Stream.Delivery.Single.{
  seen_by, Stable, Stable-refl, Stable-trans, Moved, Moved_trans, deliver-Moved, make-Moved,
  xread-Stable,
}

module _ {E : Type 0} (o : Outside E) where
  open o use {
    World, log, newest, trimmed, xread, xread_after, log_ascending, log_bounded, set_event_id,
    filter,
  }

  -- A part of the run that starts behind `k` ends behind some `j`, and in between the consumer has
  -- acknowledged what the list holds between the two.
  abbrev ReadWithin : ℕ → ℕ → List Message → Reader o → Reader o → Type 0
  ReadWithin b k ms r r' =
      (j : ℕ) × (k ≤ j)
      × (j ≤ b)
      × (r'.position ≡ after j)
      × Stable o r.world r'.world
      × (r'.acknowledged ≡ r.acknowledged ++ between o k j ms)

  -- The messages up to a delivered one and those after it.
  stopped :
      (b k : ℕ) (ms : List Message) (r r' : Reader o)
      → k ≤ b
      → r.position ≡ after k
      → Moved o r r' []
      → ReadWithin b k ms r r'
  stopped b k ms r r' h at m = (
    k,
    omega arith,
    h,
    m.1 ∙ at,
    m.0,
    m.2 ∙ ap (λ l. r.acknowledged ++ l) (sym (between_self o k ms)),
  )

  skipped :
      (b k : ℕ) (m : Message) (ms : List Message) (r r' : Reader o)
      → decode_event o m.event ≡ none
      → ReadWithin b k ms r r'
      → ReadWithin b k (m ∷ ms) r r'
  skipped b k m ms r r' bad (j, up, within, at, still, seen) = (
    j,
    up,
    within,
    at,
    still,
    seen ∙ ap (λ l. r.acknowledged ++ l) (sym (between-skip o k j m ms bad)),
  )

  taken :
      (b k : ℕ) (m : Message) (ms : List Message) (event : E) (r s r' : Reader o)
      → k < m.id
      → Ascending m.id ms
      → decode_event o m.event ≡ some event
      → Moved o r s (event_of o m.id (some event))
      → ReadWithin b m.id ms (record s { position = after m.id }) r'
      → ReadWithin b k (m ∷ ms) r r'
  taken b k m ms event r s r' low up good moved (j, high, within, at, still, seen) = (
    j,
    omega arith,
    within,
    at,
    Stable-trans o r.world s.world r'.world moved.0 still,
    seen
        ∙ ap (λ l. l ++ between o m.id j ms) moved.2
        ∙ append_assoc r.acknowledged (event_of o m.id (some event)) (between o m.id j ms)
        ∙ ap (λ l. r.acknowledged ++ l)
            (ap (λ d. event_of o m.id d ++ between o m.id j ms) (sym good)
              ∙ sym (between-taken o k j m ms low high up)),
  )

  deliver_all_failed :
      (m : Message) (ms : List Message) (r : Reader o) (event : E) (e : ReadError)
      → decode_event o m.event ≡ some event
      → (deliver o event m.id r).1 ≡ some e
      → (deliver_all o (m ∷ ms) r).0 ≡ (deliver o event m.id r).0
  unfolding deliver_all
  deliver_all_failed m ms r event e good failed = rw (deliver_all, good, failed) refl

  deliver_all_next :
      (m : Message) (ms : List Message) (r : Reader o) (event : E)
      → decode_event o m.event ≡ some event
      → (deliver o event m.id r).1 ≡ none
      → deliver_all o (m ∷ ms) r
        ≡ deliver_all o ms (record (deliver o event m.id r).0 { position = after m.id })
  unfolding deliver_all
  deliver_all_next m ms r event good ok = rw (deliver_all, good, ok) refl

  deliver_all_malformed :
      (m : Message) (ms : List Message) (r : Reader o)
      → decode_event o m.event ≡ none
      → deliver_all o (m ∷ ms) r ≡ deliver_all o ms r
  unfolding deliver_all
  deliver_all_malformed m ms r bad = rw (deliver_all, bad) refl

  deliver_all-ReadWithin :
      (b k : ℕ) (ms : List Message) (r : Reader o)
      → k ≤ b
      → All (λ m. m.id ≤ b) ms
      → Ascending k ms
      → r.position ≡ after k
      → ReadWithin b k ms r (deliver_all o ms r).0
  deliver_all-ReadWithin b k [] r h bound up at =
      unfold deliver_all in
      stopped b k [] r r h at (Stable-refl o r.world, refl, sym (append-nil r.acknowledged))
  deliver_all-ReadWithin b k (m ∷ ms) r h bound up at =
      let low : k ≤ m.id = omega arith in
      elim (Option-cases (decode_event o m.event)) [
        | inl bad ↦
            subst (λ d. ReadWithin b k (m ∷ ms) r d.0) (sym (deliver_all_malformed m ms r bad))
              (skipped b k m ms r (deliver_all o ms r).0 bad (
                deliver_all-ReadWithin b k ms r h bound.1 (Ascending-weaken k m.id ms low up.1) at))
        | inr (event, good) ↦
            let d = deliver o event m.id r in
            let moved = deliver-Moved o event m.id r in
            elim (Option-cases d.1) [
              | inr (e, failed) ↦
                  subst (λ s. ReadWithin b k (m ∷ ms) r s)
                    (sym (deliver_all_failed m ms r event e good failed))
                    (stopped b k (m ∷ ms) r d.0 h at (
                      subst (λ x. Moved o r d.0 (seen_by o (set_event_id event m.id) x)) failed
                        moved))
              | inl ok ↦
                  let s = record d.0 { position = after m.id } in
                  subst (λ t. ReadWithin b k (m ∷ ms) r t.0)
                    (sym (deliver_all_next m ms r event good ok))
                    (taken b k m ms event r d.0 (deliver_all o ms s).0 up.0 up.1 good
                      (subst (λ x. Moved o r d.0 (seen_by o (set_event_id event m.id) x)) ok moved)
                      (deliver_all-ReadWithin b m.id ms s bound.0 bound.1 up.1 refl))
            ]
      ]

  XReply-cases :
      (x : XReply) → (x ≢ unreachable) → ((ms : List Message) × (x ≡ messages ms)) ⊎ (x ≡ nothing)
  XReply-cases (messages ms) h = inl (ms, refl)
  XReply-cases nothing h = inr refl
  XReply-cases unreachable h = absurd (h refl)

  read_stream_messages :
      (r : Reader o) (ms : List Message)
      → (xread r.position r.world).1 ≡ messages ms
      → read_stream o r ≡ deliver_all o ms (record r { world = (xread r.position r.world).0 })
  unfolding read_stream
  read_stream_messages r ms e = rw (read_stream, e) refl

  read_stream-nothing :
      (r : Reader o)
      → (xread r.position r.world).1 ≡ nothing
      → read_stream o r ≡ (record r { world = (xread r.position r.world).0 }, none)
  unfolding read_stream
  read_stream-nothing r e = rw (read_stream, e) refl

  -- Redis answers every read.
  abbrev pub IsReachable : Type 0
  IsReachable = (p : Position) (w : World) → (xread p w).1 ≢ unreachable

  -- The same, against what the stream holds at the end.
  abbrev pub ReadLog : ℕ → Reader o → Reader o → Type 0
  ReadLog k r r' =
      (j : ℕ) × (k ≤ j)
      × (j ≤ newest r'.world)
      × (r'.position ≡ after j)
      × Stable o r.world r'.world
      × (r'.acknowledged ≡ r.acknowledged ++ between o k j (log r'.world))

  -- The entries that were trimmed before a read are not behind the position of the reader.
  abbrev pub InTime : Reader o → Type 0
  InTime r = (k : ℕ) → r.position ≡ after k → trimmed (xread r.position r.world).0 ≤ k

  -- So it is at every read of the rounds.
  unfoldable pub KeepsUp : ℕ → Reader o → Type 0
  KeepsUp zero r = Unit
  KeepsUp (suc n) r =
      InTime r
      × ((read_stream o r).1 ≡ none → KeepsUp n (read_stream o r).0)
      × ((e : ReadError)
          → (read_stream o r).1 ≡ some e
          → KeepsUp n (make o backoff (read_stream o r).0).0)

  nothing_read :
      (k : ℕ) (r r' : Reader o)
      → k ≤ newest r.world
      → r.position ≡ after k
      → Moved o r r' []
      → ReadLog k r r'
  nothing_read k r r' h at m = (
    k,
    omega arith,
    omega (arith, h, m.0.0),
    m.1 ∙ at,
    m.0,
    m.2 ∙ ap (λ l. r.acknowledged ++ l) (sym (between_self o k (log r'.world))),
  )

  ReadLog-trans :
      (k : ℕ) (r s t : Reader o)
      → ReadLog k r s
      → ((j : ℕ) → j ≤ newest s.world → s.position ≡ after j → ReadLog j s t)
      → ReadLog k r t
  ReadLog-trans k r s t (i, up, held, at, still, seen) next =
      let (j, up', held', at', still', seen') = next i held at in
      (
        j,
        omega (arith, up, up'),
        held',
        at',
        Stable-trans o r.world s.world t.world still still',
        seen'
            ∙ ap (λ l. l ++ between o i j (log t.world)) seen
            ∙ append_assoc r.acknowledged (between o k i (log s.world))
                (between o i j (log t.world))
            ∙ ap (λ l. r.acknowledged ++ l)
                (ap (λ l. l ++ between o i j (log t.world)) (sym (still'.1 k i held))
                  ∙ sym (between-split o k i j 0 (log t.world) up up' (log_ascending t.world))),
      )

  -- What was read is a part of the stream, also of the later one.
  within_log :
      (k : ℕ) (ms : List Message) (r s t : Reader o)
      → ms ≡ newer k (log s.world)
      → Stable o r.world s.world
      → s.acknowledged ≡ r.acknowledged
      → ReadWithin (newest s.world) k ms s t
      → ReadLog k r t
  within_log k ms r s t held still same (j, up, within, at, still', seen) = (
    j,
    up,
    omega (arith, within, still'.0),
    at,
    Stable-trans o r.world s.world t.world still still',
    seen
        ∙ ap (λ l. l ++ between o k j ms) same
        ∙ ap (λ l. r.acknowledged ++ l)
            (ap (between o k j) held
              ∙ between-newer o k j (log s.world)
              ∙ sym (still'.1 k j within)),
  )

  read_stream-ReadLog :
      (k : ℕ) (r : Reader o)
      → IsReachable
      → k ≤ newest r.world
      → r.position ≡ after k
      → InTime r
      → ReadLog k r (read_stream o r).0
  read_stream-ReadLog k r reachable h at timely =
      let w' = (xread r.position r.world).0 in
      let r' = record r { world = w' } in
      let still = xread-Stable o r.position r.world in
      elim (XReply-cases (xread r.position r.world).1 (reachable r.position r.world)) [
        | inr empty ↦
            subst (λ x. ReadLog k r x.0) (sym (read_stream-nothing r empty))
              (nothing_read k r r' h at (still, refl, sym (append-nil r.acknowledged)))
        | inl (ms, found) ↦
            let held : ms ≡ newer k (log w') =
              subst
                (λ p.
                  (xread p r.world).1 ≡ messages ms
                  → ms ≡ newer k (newer (trimmed (xread p r.world).0) (log (xread p r.world).0)))
                (sym at) (xread_after k r.world ms) found
              ∙ newer-kept (trimmed w') k (log w') (timely k at) in
            subst (λ x. ReadLog k r x.0) (sym (read_stream_messages r ms found))
              (within_log k ms r r' (deliver_all o ms r').0 held still refl (
                deliver_all-ReadWithin (newest w') k ms r' (omega (arith, h, still.0))
                  (subst (λ l. All (λ m. m.id ≤ newest w') l) (sym held)
                    (newer-bounded (newest w') k (log w') (log_bounded w')))
                  (subst (λ l. Ascending k l) (sym held)
                    (newer-Ascending 0 k (log w') (log_ascending w')))
                  at))
      ]

  loop_read :
      (n : ℕ) (r : Reader o)
      → ended o r ≡ false
      → (read_stream o r).1 ≡ none
      → read_loop o (suc n) r ≡ read_loop o n (read_stream o r).0
  unfolding read_loop
  loop_read n r goes_on fine = rw (read_loop, goes_on, fine) refl

  loop_stops :
      (n : ℕ) (r : Reader o) (e : ReadError)
      → ended o r ≡ false
      → (read_stream o r).1 ≡ some e
      → (ended o (read_stream o r).0 || is_watcher_closed o e) ≡ true
      → read_loop o (suc n) r ≡ (read_stream o r).0
  unfolding read_loop
  loop_stops n r e goes_on failed over = rw (read_loop, goes_on, failed, over) refl

  loop_waits :
      (n : ℕ) (r : Reader o) (e : ReadError)
      → ended o r ≡ false
      → (read_stream o r).1 ≡ some e
      → (ended o (read_stream o r).0 || is_watcher_closed o e) ≡ false
      → read_loop o (suc n) r ≡ read_loop o n (make o backoff (read_stream o r).0).0
  unfolding read_loop
  loop_waits n r e goes_on failed over = rw (read_loop, goes_on, failed, over) refl

  read_loop-ReadLog :
      (n k : ℕ) (r : Reader o)
      → IsReachable
      → k ≤ newest r.world
      → r.position ≡ after k
      → KeepsUp n r
      → ReadLog k r (read_loop o n r)
  unfolding read_loop KeepsUp
  read_loop-ReadLog zero k r reachable h at keeps =
      nothing_read k r r h at (Stable-refl o r.world, refl, sym (append-nil r.acknowledged))
  read_loop-ReadLog (suc n) k r reachable h at (timely, next, retry) =
      elim (Bool-cases (ended o r)) [
        | inl over ↦
            rw (read_loop, over)
              (nothing_read k r r h at
                (Stable-refl o r.world, refl, sym (append-nil r.acknowledged)))
        | inr goes_on ↦
            let round = read_stream o r in
            let read = read_stream-ReadLog k r reachable h at timely in
            let waited = make o backoff round.0 in
            elim (Option-cases round.1) [
              | inl fine ↦ subst (ReadLog k r) (sym (loop_read n r goes_on fine)) (
                  ReadLog-trans k r round.0 (read_loop o n round.0) read
                    (λ j held at'. read_loop-ReadLog n j round.0 reachable held at' (next fine)))
              | inr (e, failed) ↦ elim (Bool-cases (ended o round.0 || is_watcher_closed o e)) [
                | inl over ↦ subst (ReadLog k r) (sym (loop_stops n r e goes_on failed over)) read
                | inr over ↦ subst (ReadLog k r) (sym (loop_waits n r e goes_on failed over)) (
                    ReadLog-trans k r waited.0 (read_loop o n waited.0)
                      (ReadLog-trans k r round.0 waited.0 read (λ j held at'.
                        nothing_read j round.0 waited.0 held at' (make-Moved o backoff round.0)))
                      (λ j held at'.
                        read_loop-ReadLog n j waited.0 reachable held at' (retry e failed)))
              ]
            ]
      ]

-- While Redis answers every read, and no read finds that an entry behind the reader's position was
-- trimmed, a reader that starts behind an id that Redis has given, and makes any number of rounds, ends
-- behind some later or the same id; in between the consumer has acknowledged exactly the events that
-- were added to the stream between the two, each once and in the order of the stream,
-- less the malformed ones and those that the watcher filters out. This holds whatever is published
-- meanwhile and also where a delivery fails and the watcher is evicted.
pub read_loop-between :
    {E : Type 0} (o : Outside E) (n k : ℕ) (r : Reader o)
    → IsReachable o
    → k ≤ Outside.newest o r.world
    → r.position ≡ after k
    → KeepsUp o n r
    → (j : ℕ) × (k ≤ j)
      × ((read_loop o n r).position ≡ after j)
      × ((read_loop o n r).acknowledged
          ≡ r.acknowledged ++ between o k j (Outside.log o (read_loop o n r).world))
read_loop-between o n k r reachable h at keeps =
    let (j, up, held, at', still, seen) = read_loop-ReadLog o n k r reachable h at keeps in
    (j, up, at', seen)
