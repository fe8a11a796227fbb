-- ===== src/Watch/Stream/Events.antt =====
-- The events of a stretch of the stream, as what a watcher of
-- api-server/pkg/watch/providers/redis/watch.go is to see.
use yaghan.Base.{
  ℕ, ◌≤◌, ◌<◌, ◌≡◌, refl, sym, ap, ◌∙◌, inl, inr, true, false, Option, none, some, List, [], ◌∷◌,
  ◌++◌, if◌then◌else◌, ltb, leb, All, ◌&&◌, arith, Bool-cases,
}
use mathlib.Core.List.{append_assoc, append-nil}
use yaghan.Watch.Stream.{Message, Outside, Ascending, newer, decode_event}

module _ {E : Type 0} (o : Outside E) where
  open o use {set_event_id, filter}

  -- The event of a message as the consumer gets it, or nothing where it is malformed or filtered out.
  abbrev pub event_of : ℕ → Option E → List E
  event_of id none = []
  event_of id (some event) =
      if filter (set_event_id event id) then set_event_id event id ∷ [] else []

  -- The events behind `k` and not behind `j`.
  unfoldable pub between : ℕ → ℕ → List Message → List E
  between k j [] = []
  between k j (m ∷ ms) =
      let rest = between k j ms in
      if ltb k m.id && leb m.id j then event_of m.id (decode_event o m.event) ++ rest else rest

  pub between_self : (k : ℕ) (ms : List Message) → between k k ms ≡ []
  unfolding between
  between_self k [] = refl
  between_self k (m ∷ ms) = ground (arith, between_self k ms)

  -- What comes later than the end of the stretch adds nothing.
  pub between-beyond :
      (k j b : ℕ) (ms : List Message) → j ≤ b → Ascending b ms → between k j ms ≡ []
  unfolding between
  between-beyond k j b [] h up = refl
  between-beyond k j b (m ∷ ms) h up = ground (arith, between-beyond k j m.id ms)

  pub between-append :
      (k j : ℕ) (ms more : List Message)
      → between k j (ms ++ more) ≡ between k j ms ++ between k j more
  unfolding between
  between-append k j [] more = refl
  between-append k j (m ∷ ms) more = elim (Bool-cases (ltb k m.id && leb m.id j)) [
    | inl e ↦ rw e (
        rw (between-append k j ms more) (
          sym (
            append_assoc (event_of m.id (decode_event o m.event)) (between k j ms)
              (between k j more))))
    | inr e ↦ rw e (between-append k j ms more)
  ]

  pub between-grown :
      (k j b : ℕ) (ms more : List Message)
      → j ≤ b
      → Ascending b more
      → between k j (ms ++ more) ≡ between k j ms
  between-grown k j b ms more h up =
      between-append k j ms more
      ∙ ap (λ t. between k j ms ++ t) (between-beyond k j b more h up)
      ∙ append-nil (between k j ms)

  front : (m k j : ℕ) → leb m k ≡ true → k ≤ j → leb m j ≡ true
  front m k j early h = ground arith

  back : (m k : ℕ) → leb m k ≡ true → ltb k m ≡ false
  back m k early = ground arith

  -- Two stretches in a row.
  pub between-split :
      (i k j b : ℕ) (ms : List Message)
      → i ≤ k
      → k ≤ j
      → Ascending b ms
      → between i j ms ≡ between i k ms ++ between k j ms
  unfolding between
  between-split i k j b [] h h' up = refl
  between-split i k j b (m ∷ ms) h h' up = elim (Bool-cases (leb m.id k)) [
    | inr late ↦ ground (arith, between-beyond i k m.id ms, between-split i k j m.id ms h h' up.1)
    | inl early ↦ elim (Bool-cases (ltb i m.id)) [
      | inl wanted ↦
          rw (wanted, early, front m.id k j early h', back m.id k early)
            (rw (between-split i k j m.id ms h h' up.1) (
              sym (
                append_assoc (event_of m.id (decode_event o m.event)) (between i k ms)
                  (between k j ms))))
      | inr old ↦ rw (old, back m.id k early) (between-split i k j m.id ms h h' up.1)
    ]
  ]

  pub between-skip :
      (k j : ℕ) (m : Message) (ms : List Message)
      → decode_event o m.event ≡ none
      → between k j (m ∷ ms) ≡ between k j ms
  unfolding between
  between-skip k j m ms bad = elim (Bool-cases (ltb k m.id && leb m.id j)) [
    | inl e ↦ rw (e, bad) refl
    | inr e ↦ rw e refl
  ]

  pub between-taken :
      (k j : ℕ) (m : Message) (ms : List Message)
      → k < m.id
      → m.id ≤ j
      → Ascending m.id ms
      → between k j (m ∷ ms) ≡ event_of m.id (decode_event o m.event) ++ between m.id j ms
  unfolding between
  between-taken k j m ms h h' up =
      let wanted : (ltb k m.id && leb m.id j) ≡ true = ground arith in
      let low : k ≤ m.id = omega arith in
      rw wanted (
        ap (λ t. event_of m.id (decode_event o m.event) ++ t)
          (between-split k m.id j m.id ms low h' up
            ∙ ap (λ t. t ++ between m.id j ms) (between-beyond k m.id m.id ms (omega arith) up)))

  -- Among the newer ones nothing is lost.
  pub between-newer : (k j : ℕ) (ms : List Message) → between k j (newer k ms) ≡ between k j ms
  unfolding between
  between-newer k j [] = refl
  between-newer k j (m ∷ ms) = elim (Bool-cases (ltb k m.id)) [
    | inl e ↦ rw e (rw e (rw (between-newer k j ms) refl))
    | inr e ↦ rw e (between-newer k j ms)
  ]

pub Ascending-weaken : (i k : ℕ) (ms : List Message) → i ≤ k → Ascending k ms → Ascending i ms
Ascending-weaken i k [] h up = up
Ascending-weaken i k (m ∷ ms) h up = (omega (arith, h, up.0), up.1)

-- Where only entries up to `k` are gone, a read behind `k` misses none.
pub newer-kept : (t k : ℕ) (ms : List Message) → t ≤ k → newer k (newer t ms) ≡ newer k ms
newer-kept t k [] h = refl
newer-kept t k (m ∷ ms) h = elim (Bool-cases (ltb t m.id)) [
  | inl e ↦ rw e (rw (newer-kept t k ms h) refl)
  | inr e ↦
      let early : ltb k m.id ≡ false = ground (arith, e, h) in rw (e, early) (newer-kept t k ms h)
]

lt_of : (a b : ℕ) → ltb a b ≡ true → a < b
lt_of a b h = ground arith

-- An entry behind `k` keeps its place in front.
newer-front : (k i : ℕ) (ms : List Message) → k ≤ i → Ascending i ms → Ascending i (newer k ms)
newer-front k i [] h up = up
newer-front k i (m ∷ ms) h up =
    let later : ltb k m.id ≡ true = ground arith in
    rw later (up.0, newer-front k m.id ms (omega arith) up.1)

-- An ascending list's newer entries ascend from the one they are behind.
pub newer-Ascending : (i k : ℕ) (ms : List Message) → Ascending i ms → Ascending k (newer k ms)
newer-Ascending i k [] up = up
newer-Ascending i k (m ∷ ms) up = elim (Bool-cases (ltb k m.id)) [
  | inl e ↦
      let above : k < m.id = lt_of k m.id e in
      rw e (above, newer-front k m.id ms (omega arith) up.1)
  | inr e ↦ rw e (newer-Ascending m.id k ms up.1)
]

pub newer-bounded :
    (b k : ℕ) (ms : List Message) → All (λ m. m.id ≤ b) ms → All (λ m. m.id ≤ b) (newer k ms)
newer-bounded b k [] h = h
newer-bounded b k (m ∷ ms) h = elim (Bool-cases (ltb k m.id)) [
  | inl e ↦ rw e (h.0, newer-bounded b k ms h.1)
  | inr e ↦ rw e (newer-bounded b k ms h.1)
]
