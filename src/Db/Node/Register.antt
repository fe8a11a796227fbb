-- ===== src/Db/Node/Register.antt =====
-- A compare-and-set register, and the rows of api-server/pkg/db/node/dynamodb/dynamodb.go that stand
-- for one.
use mathlib.Core.Option.{some-injective}
use mathlib.Core.Path.{subst}
use yaghan.Base.{
  ℕ, zero, suc, ◌+◌, ◌≡◌, refl, sym, ◌∙◌, inl, inr, Bool, true, false, Option, none, some,
  if◌then◌else◌, nat_beq, Option-cases, arith,
}
use yaghan.Base.Text.{Text, text_beq, text_eq}
use yaghan.Db.Errors.{Error, already_exists, not_found, version_conflict, Outcome, ok, err}
use yaghan.Db.Dynamo.{member_s, member_n, holds}
use yaghan.Db.Node.{
  initial_version, Node, node_id, node_version, NodeItem, NodeCodec, to_item, item_of,
  digest_from_attrs, put_condition, diagnose_put_conflict,
}

-- What a register holds: nothing, or a version and the digest of the contents.
abbrev pub Register : Type 0
Register = Option (ℕ × Text)

-- Whether a write that expects a version, 0 for none, may replace the contents.
abbrev pub admits : ℕ → Register → Bool
admits zero none = true
admits zero (some r) = false
admits (suc v) none = false
admits (suc v) (some r) = nat_beq r.0 (suc v)

abbrev pub same_contents : Text → Register → Bool
same_contents digest none = false
same_contents digest (some r) = text_beq digest r.1

abbrev pub conflict : ℕ → Register → Error
conflict zero r = already_exists
conflict (suc v) none = not_found
conflict (suc v) (some r) = version_conflict

-- A write: the register afterwards, and the error.
unfoldable pub write_register : ℕ → Text → Register → Register × Option Error
write_register expected digest r =
    if admits expected r
    then (some (expected + 1, digest), none)
    else (r, (if same_contents digest r then none else some (conflict expected r)))

-- A row stands for a register.
pub data Represents (id : Text) : Option NodeItem → Register → Type 0 where
  no_row : Represents id none none
  one_row :
      (item : NodeItem) (version : ℕ) (digest : Text)
      → item node_id ≡ some (member_s id)
      → item node_version ≡ some (member_n version)
      → digest_from_attrs (some item) ≡ some digest
      → Represents id (some item) (some (version, digest))

abbrev pub error_of : Outcome Node → Option Error
error_of (ok n) = none
error_of (err e) = some e

pub positive : (v : ℕ) → nat_beq (suc v) 0 ≡ false
positive v = ground arith

pub next_version : (v : ℕ) → (if nat_beq v 0 then initial_version else v + 1) ≡ v + 1
next_version v = ground arith

pub holds-put_condition :
    (id : Text) (v : ℕ) (o : Option NodeItem) (r : Register)
    → Represents id o r
    → holds (put_condition v) o ≡ admits v r
unfolding put_condition
holds-put_condition id zero _ _ no_row = refl
holds-put_condition id (suc v) _ _ no_row = rw (put_condition, positive v) refl
holds-put_condition id zero _ _ (one_row item version digest key own dig) = rw (holds, key) refl
holds-put_condition id (suc v) _ _ (one_row item version digest key own dig) =
    rw (put_condition, positive v) (rw (holds, key, own) refl)

pub diagnose_put_conflict-conflict :
    (id : Text) (v : ℕ) (o : Option NodeItem) (r : Register)
    → Represents id o r
    → diagnose_put_conflict v o ≡ conflict v r
unfolding diagnose_put_conflict
diagnose_put_conflict-conflict id zero _ _ no_row = refl
diagnose_put_conflict-conflict id zero _ _ (one_row item version digest key own dig) = refl
diagnose_put_conflict-conflict id (suc v) _ _ no_row = rw (positive v) refl
diagnose_put_conflict-conflict id (suc v) _ _ (one_row item version digest key own dig) =
    rw (positive v) refl

pub digest_from_attrs-Represents :
    (id : Text) (o : Option NodeItem) (r : Register)
    → Represents id o r
    → digest_from_attrs o ≡ (elim r [ none ↦ none | some q ↦ some q.1 ])
unfolding digest_from_attrs
digest_from_attrs-Represents id _ _ no_row = refl
digest_from_attrs-Represents id _ _ (one_row item version digest key own dig) = dig

pub to_item-one_row :
    (c : NodeCodec) (n : Node) (digest : Text) (item : NodeItem)
    → to_item c n digest ≡ some item
    → Represents n.metadata.id (some item) (some (n.metadata.version, digest))
unfolding to_item item_of digest_from_attrs
to_item-one_row c n digest item e = elim (Option-cases (c.marshal n)) [
  | inl f ↦ let bad : none ≡ some item = sym (rw (to_item, f) refl) ∙ e in cc
  | inr (b, f) ↦
      let same : item_of c n digest b ≡ item =
        some-injective _ _ (sym (rw (to_item, f) refl) ∙ e) in
      subst (λ i. Represents n.metadata.id (some i) (some (n.metadata.version, digest))) same
        (one_row (item_of c n digest b) n.metadata.version digest refl refl refl)
]

pub one_row-key :
    (id : Text) (item : NodeItem) (q : ℕ × Text)
    → Represents id (some item) (some q)
    → item node_id ≡ some (member_s id)
one_row-key id _ _ (one_row item version digest key own dig) = key

pub write_register-admitted :
    (v : ℕ) (digest : Text) (r : Register)
    → admits v r ≡ true
    → write_register v digest r ≡ (some (v + 1, digest), none)
unfolding write_register
write_register-admitted v digest r h = rw h refl

pub write_register-refused :
    (v : ℕ) (digest : Text) (r : Register)
    → admits v r ≡ false
    → write_register v digest r
      ≡ (r, (if same_contents digest r then none else some (conflict v r)))
unfolding write_register
write_register-refused v digest r h = rw h refl
