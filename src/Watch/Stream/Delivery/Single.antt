-- ===== src/Watch/Stream/Delivery/Single.antt =====
-- What the delivery of one event, in api-server/pkg/watch/providers/redis/watch.go, leaves unchanged.
use yaghan.Base.{
  ℕ, ◌≤◌, ◌≡◌, refl, sym, ap, ◌∙◌, false, Option, none, some, List, [], ◌∷◌, ◌++◌, if◌then◌else◌,
  arith, Bool-cases, inl, inr,
}
use mathlib.Core.List.{append_assoc, append-nil}
use yaghan.Watch.Stream.{
  Position, Call, close, offer, set_id, await, Reply, done, watcher_closed, deadline_exceeded,
  parent_cancelled, refused, Outside, Reader, ReadError, make, evict_watcher, give_up, receive,
  note, acknowledge, deliver_received, deliver,
}
use yaghan.Watch.Stream.Events.{between, between-grown}

module _ {E : Type 0} (o : Outside E) where
  open o use {World, log, newest, call, xread, call_grows, xread_grows, filter, set_event_id}

  -- The stream may have grown, behind all that was there.
  abbrev pub Stable : World → World → Type 0
  Stable w w' =
      (newest w ≤ newest w')
      × ((k j : ℕ) → j ≤ newest w → between o k j (log w') ≡ between o k j (log w))

  pub Stable-refl : (w : World) → Stable w w
  Stable-refl w = (omega arith, λ k j h. refl)

  pub Stable-trans : (u v w : World) → Stable u v → Stable v w → Stable u w
  Stable-trans u v w a b =
      (omega (arith, a.0, b.0), λ k j h. b.1 k j (omega (arith, h, a.0)) ∙ a.1 k j h)

  call-Stable : (c : Call E) (w : World) → Stable w (call c w).0
  call-Stable c w =
      let (more, e, up, h) = call_grows c w in
      (h, λ k j b. ap (between o k j) e ∙ between-grown o k j (newest w) (log w) more b up)

  pub xread-Stable : (p : Position) (w : World) → Stable w (xread p w).0
  xread-Stable p w =
      let (more, e, up, h) = xread_grows p w in
      (h, λ k j b. ap (between o k j) e ∙ between-grown o k j (newest w) (log w) more b up)

  -- A stretch of the loop in which the consumer has acknowledged the given events.
  abbrev pub Moved : Reader o → Reader o → List E → Type 0
  Moved r r' seen =
      Stable r.world r'.world
      × (r'.position ≡ r.position)
      × (r'.acknowledged ≡ r.acknowledged ++ seen)

  pub Moved_trans :
      (r s t : Reader o) (seen more : List E)
      → Moved r s seen
      → Moved s t more
      → Moved r t (seen ++ more)
  Moved_trans r s t seen more a b = (
    Stable-trans r.world s.world t.world a.0 b.0,
    b.1 ∙ a.1,
    b.2 ∙ ap (λ l. l ++ more) a.2 ∙ append_assoc r.acknowledged seen more,
  )

  Moved_refl : (r : Reader o) → Moved r r []
  Moved_refl r = (Stable-refl r.world, refl, sym (append-nil r.acknowledged))

  pub make-Moved : (c : Call E) (r : Reader o) → Moved r (make o c r).0 []
  unfolding make
  make-Moved c r = (call-Stable c r.world, refl, sym (append-nil r.acknowledged))

  evict_watcher-Moved : (r : Reader o) → Moved r (evict_watcher o r) []
  unfolding evict_watcher
  evict_watcher-Moved r = make-Moved close (record r { registered = false })

  give_up-Moved : (reply : Reply) (r : Reader o) → Moved r (give_up o reply r) []
  unfolding give_up
  give_up-Moved deadline_exceeded r = elim (Bool-cases (Outside.cancelled o r.world)) [
    | inl e ↦ rw e (Moved_refl r)
    | inr e ↦ rw e (evict_watcher-Moved r)
  ]
  give_up-Moved done r = Moved_refl r
  give_up-Moved watcher_closed r = Moved_refl r
  give_up-Moved parent_cancelled r = Moved_refl r
  give_up-Moved refused r = Moved_refl r

  receive-Moved : (event : E) (r : Reader o) → Moved r (receive o event r).0 []
  unfolding receive
  receive-Moved event r = elim (Bool-cases (Outside.closed o r.world)) [
    | inl e ↦ rw e (Moved_refl r)
    | inr e ↦ elim (Bool-cases (filter event)) [
      | inl f ↦ rw (e, f) (make-Moved (offer event) r)
      | inr f ↦ rw (e, f) (Moved_refl r)
    ]
  ]

  -- The consumer has acknowledged an event exactly when the call has no error.
  abbrev pub seen_by : E → Option ReadError → List E
  seen_by event none = if filter event then event ∷ [] else []
  seen_by event (some e) = []

  note-Moved : (event : E) (r : Reader o) → Moved r (note o event r) (seen_by event none)
  unfolding note
  note-Moved event r = elim (Bool-cases (filter event)) [
    | inl f ↦ rw f (Stable-refl r.world, refl, refl)
    | inr f ↦ rw f (Moved_refl r)
  ]

  abbrev Delivered : E → Reader o → Reader o × Option ReadError → Type 0
  Delivered event r after = Moved r after.0 (seen_by event after.1)

  failed :
      (event : E) (r s : Reader o) (reply : Reply) → Moved r s [] → Moved r (give_up o reply s) []
  failed event r s reply m = Moved_trans r s (give_up o reply s) [] [] m (give_up-Moved reply s)

  acknowledge-Delivered :
      (event : E) (id : ℕ) (r s : Reader o) (reply : Reply)
      → Moved r s []
      → Delivered event r (acknowledge o event id (s, reply))
  unfolding acknowledge
  acknowledge-Delivered event id r s done m =
      let noted = note o event s in
      let all = Moved_trans r s (make o (set_id id) noted).0 [] (seen_by event none ++ []) m (
        Moved_trans s noted (make o (set_id id) noted).0 (seen_by event none) []
          (note-Moved event s) (make-Moved (set_id id) noted)) in
      (all.0, all.1, all.2 ∙ ap (λ l. r.acknowledged ++ l) (append-nil (seen_by event none)))
  acknowledge-Delivered event id r s watcher_closed m = failed event r s watcher_closed m
  acknowledge-Delivered event id r s deadline_exceeded m = failed event r s deadline_exceeded m
  acknowledge-Delivered event id r s parent_cancelled m = failed event r s parent_cancelled m
  acknowledge-Delivered event id r s refused m = failed event r s refused m

  deliver_received-Delivered :
      (event : E) (id : ℕ) (r s : Reader o) (reply : Reply)
      → Moved r s []
      → Delivered event r (deliver_received o event id (s, reply))
  unfolding deliver_received
  deliver_received-Delivered event id r s done m =
      let waited = make o await s in
      acknowledge-Delivered event id r waited.0 waited.1
        (Moved_trans r s waited.0 [] [] m (make-Moved await s))
  deliver_received-Delivered event id r s watcher_closed m = failed event r s watcher_closed m
  deliver_received-Delivered event id r s deadline_exceeded m = failed event r s deadline_exceeded m
  deliver_received-Delivered event id r s parent_cancelled m = failed event r s parent_cancelled m
  deliver_received-Delivered event id r s refused m = failed event r s refused m

  pub deliver-Moved :
      (event : E) (id : ℕ) (r : Reader o)
      → Moved r (deliver o event id r).0 (seen_by (set_event_id event id) (deliver o event id r).1)
  unfolding deliver
  deliver-Moved event id r =
      let event' = set_event_id event id in
      let received = receive o event' r in
      deliver_received-Delivered event' id r received.0 received.1 (receive-Moved event' r)
