-- ===== src/Db/Dynamo.antt =====
-- The DynamoDB client that the persistence packages call (commons/pkg/aws/dynamodb), as an interface:
-- conditional writes and strongly consistent reads of rows, with the behaviour that AWS documents.
use yaghan.Base.{
  ℕ, ◌≡◌, ◌⊎◌, Bool, true, false, ◌&&◌, ◌||◌, List, [], ◌∷◌, Option, none, some, if◌then◌else◌,
  ◌==◌, nat_beq,
}
use yaghan.Base.Text.{Text, text_beq, text_eq}

pub data AttributeValue : Type 0 where
  member_s : Text → AttributeValue
  member_n : ℕ → AttributeValue
  member_b : Text → AttributeValue

abbrev pub value_beq : AttributeValue → AttributeValue → Bool
value_beq (member_s a) (member_s b) = text_beq a b
value_beq (member_n a) (member_n b) = nat_beq a b
value_beq (member_b a) (member_b b) = text_beq a b
value_beq _ _ = false

abbrev pub is_some {ℓ} : {A : Type ℓ} → Option A → Bool
is_some none = false
is_some (some _) = true

abbrev pub equals_value : Option AttributeValue → AttributeValue → Bool
equals_value none v = false
equals_value (some u) v = value_beq u v

abbrev pub in_values : Option AttributeValue → List AttributeValue → Bool
in_values o [] = false
in_values o (v ∷ vs) = equals_value o v || in_values o vs

module _ (Attr : Type 0) where
  -- The map of a row's attributes.
  abbrev pub Item : Type 0
  Item = Attr → Option AttributeValue

  -- The condition expressions that the program builds.
  pub data Condition : Type 0 where
    attribute_exists attribute_not_exists : Attr → Condition
    equals : Attr → AttributeValue → Condition
    one_of : Attr → List AttributeValue → Condition
    both : Condition → Condition → Condition

module _ {Attr : Type 0} where
  -- An attribute of a row that may be absent.
  abbrev pub attribute : Attr → Option (Item Attr) → Option AttributeValue
  attribute k none = none
  attribute k (some item) = item k

  -- How DynamoDB evaluates a condition on the row that a write would replace.
  abbrev pub holds : Condition Attr → Option (Item Attr) → Bool
  holds (attribute_exists k) row = is_some (attribute k row)
  holds (attribute_not_exists k) row = elim (attribute k row) [ none ↦ true | some _ ↦ false ]
  holds (equals k v) row = equals_value (attribute k row) v
  holds (one_of k vs) row = in_values (attribute k row) vs
  holds (both c d) row = holds c row && holds d row

-- `rejected` carries the prior item when the service returns it.
pub data PutResult (Attr : Type 0) : Type 0 where
  stored : PutResult Attr
  rejected : Option (Item Attr) → PutResult Attr
  put_failed : PutResult Attr

pub data GetResult (Attr : Type 0) : Type 0 where
  got : Option (Item Attr) → GetResult Attr
  get_failed : GetResult Attr

-- A table keyed by the text attribute `key`, which every row carries. A write whose outcome is not
-- known has happened under its condition or not at all.
pub record Client (Attr : Type 0) (key : Attr) : Type 1 where
  pub Table : Type 0
  pub row : Table → Text → Option (Item Attr)
  pub put_item : Table → Item Attr → Condition Attr → Table × PutResult Attr
  pub get_item : Table → Text → GetResult Attr
  pub put_stored :
      (t : Table) (item : Item Attr) (c : Condition Attr) (k : Text)
      → item key ≡ some (member_s k)
      → (put_item t item c).1 ≡ stored
      → (holds c (row t k) ≡ true)
        × ((j : Text) → row (put_item t item c).0 j ≡ (if k == j then some item else row t j))
  pub put_rejected :
      (t : Table) (item : Item Attr) (c : Condition Attr) (k : Text) (old : Option (Item Attr))
      → item key ≡ some (member_s k)
      → (put_item t item c).1 ≡ rejected old
      → (holds c (row t k) ≡ false)
        × ((j : Text) → row (put_item t item c).0 j ≡ row t j)
        × ((old ≡ none) ⊎ (old ≡ row t k))
  pub put_unknown :
      (t : Table) (item : Item Attr) (c : Condition Attr) (k : Text)
      → item key ≡ some (member_s k)
      → (put_item t item c).1 ≡ put_failed
      → ((j : Text) → row (put_item t item c).0 j ≡ row t j)
        ⊎ ((holds c (row t k) ≡ true)
            × ((j : Text) → row (put_item t item c).0 j ≡ (if k == j then some item else row t j)))
  pub get_got : (t : Table) (k : Text) (o : Option (Item Attr)) → get_item t k ≡ got o → o ≡ row t k
  pub row_key :
      (t : Table) (k : Text) (item : Item Attr) → row t k ≡ some item → item key ≡ some (member_s k)
