-- ===== src/Db/Memory.antt =====
-- A table held in memory, with the laws of the database client.
use mathlib.Core.Option.{some-injective}
use yaghan.Base.{
  ◌≡◌, refl, sym, ap, ◌∙◌, ◌⊎◌, inl, inr, Bool, true, false, Option, none, some, if◌then◌else◌,
  ◌==◌, Bool-cases,
}
use yaghan.Base.Text.{Text, text_beq, text_beq_iff, text_eq}
use yaghan.Db.Dynamo.{
  Item, AttributeValue, member_s, member_n, member_b, Condition, PutResult, stored, rejected,
  put_failed, got, Client, holds,
}

module _ {Attr : Type 0} (key : Attr) where
  abbrev Rows : Type 0
  Rows = Text → Option (Item Attr)

  abbrev pub is_key : Option AttributeValue → Text → Bool
  is_key (some (member_s v)) k = text_beq v k
  is_key _ k = false

  -- The item, if it carries the key.
  abbrev pub with_key : Text → Option (Item Attr) → Option (Item Attr)
  with_key k none = none
  with_key k (some item) = if is_key (item key) k then some item else none

  abbrev row_of : Rows → Text → Option (Item Attr)
  row_of t k = with_key k (t k)

  abbrev set : Text → (Item Attr) → Rows → Rows
  set k item t = λ j. if k == j then some item else t j

  abbrev put_at : Rows → (Item Attr) → Condition Attr → Text → Rows × PutResult Attr
  put_at t item cond k =
      if holds cond (row_of t k) then (set k item t, stored) else (t, rejected none)

  abbrev put_key :
      Rows → (Item Attr) → Condition Attr → Option AttributeValue → Rows × PutResult Attr
  put_key t item cond (some (member_s k)) = put_at t item cond k
  put_key t item cond _ = (t, put_failed)

  abbrev put : Rows → (Item Attr) → Condition Attr → Rows × PutResult Attr
  put t item cond = put_key t item cond (item key)

  with_key-own :
      (k : Text) (item : (Item Attr))
      → item key ≡ some (member_s k)
      → with_key k (some item) ≡ some item
  with_key-own k item e =
      let own : is_key (item key) k ≡ true = rw e ((text_beq_iff k k).1 refl) in rw own refl

  is_key-key : (o : Option AttributeValue) (k : Text) → is_key o k ≡ true → o ≡ some (member_s k)
  is_key-key none k h = cc
  is_key-key (some (member_s v)) k h = ap (λ t. some (member_s t)) ((text_beq_iff v k).0 h)
  is_key-key (some (member_n v)) k h = cc
  is_key-key (some (member_b v)) k h = cc

  pub with_key-key :
      (k : Text) (o : Option (Item Attr)) (item : (Item Attr))
      → with_key k o ≡ some item
      → item key ≡ some (member_s k)
  with_key-key k none item e = cc
  with_key-key k (some x) item e = elim (Bool-cases (is_key (x key) k)) [
    | inl h ↦ ap (λ y. y key) (sym (some-injective x item (rw h at e))) ∙ is_key-key (x key) k h
    | inr h ↦ let bad : none ≡ some item = rw h at e in cc
  ]

  set-row :
      (t : Rows) (item : (Item Attr)) (k j : Text)
      → item key ≡ some (member_s k)
      → row_of (set k item t) j ≡ (if k == j then some item else row_of t j)
  set-row t item k j e = elim (Bool-cases (text_beq k j)) [
    | inl same ↦
        rw same (with_key-own j item (e ∙ ap (λ x. some (member_s x)) ((text_beq_iff k j).0 same)))
    | inr other ↦ rw other refl
  ]

  pub put-stored :
      (t : Rows) (item : (Item Attr)) (c : Condition Attr) (k : Text)
      → item key ≡ some (member_s k)
      → (put t item c).1 ≡ stored
      → (holds c (row_of t k) ≡ true)
        × ((j : Text) → row_of (put t item c).0 j ≡ (if k == j then some item else row_of t j))
  put-stored t item c k e done = elim (Bool-cases (holds c (row_of t k))) [
    | inl h ↦ (h, λ j. rw e (rw h (set-row t item k j e)))
    | inr h ↦ let bad : rejected none ≡ stored = rw (e, h) at done in cc
  ]

  pub put-rejected :
      (t : Rows) (item : (Item Attr)) (c : Condition Attr) (k : Text) (old : Option (Item Attr))
      → item key ≡ some (member_s k)
      → (put t item c).1 ≡ rejected old
      → (holds c (row_of t k) ≡ false)
        × ((j : Text) → row_of (put t item c).0 j ≡ row_of t j)
        × ((old ≡ none) ⊎ (old ≡ row_of t k))
  put-rejected t item c k old e done = elim (Bool-cases (holds c (row_of t k))) [
    | inl h ↦ let bad : stored ≡ rejected old = rw (e, h) at done in cc
    | inr h ↦
        let same : rejected none ≡ rejected old = rw (e, h) at done in
        (h, (λ j. rw e (rw h refl)), inl cc)
  ]

  pub put-unknown :
      (t : Rows) (item : (Item Attr)) (c : Condition Attr) (k : Text)
      → item key ≡ some (member_s k)
      → (put t item c).1 ≡ put_failed
      → ((j : Text) → row_of (put t item c).0 j ≡ row_of t j)
        ⊎ ((holds c (row_of t k) ≡ true)
            × ((j : Text) → row_of (put t item c).0 j ≡ (if k == j then some item else row_of t j)))
  put-unknown t item c k e done = elim (Bool-cases (holds c (row_of t k))) [
    | inl h ↦ let bad : stored ≡ put_failed = rw (e, h) at done in cc
    | inr h ↦ let bad : rejected none ≡ put_failed = rw (e, h) at done in cc
  ]

  pub got-row :
      (t : Rows) (k : Text) (o : Option (Item Attr)) → got (row_of t k) ≡ got o → o ≡ row_of t k
  got-row t k o e = cc

  abbrev pub memory_of : Client Attr key
  memory_of = record {
    Table = Rows;
    row = row_of;
    put_item = put;
    get_item = λ t k. got (row_of t k);
    put_stored = put-stored;
    put_rejected = put-rejected;
    put_unknown = put-unknown;
    get_got = got-row;
    row_key = λ t k item e. with_key-key k (t k) item e;
  }

  abbrev pub empty_rows : Rows
  empty_rows = λ j. none
