-- ===== src/Db/Sandbox/Create.antt =====
-- What Create of api-server/pkg/db/sandbox/dynamodb/dynamodb.go does to the table.
use mathlib.Core.Option.{some-injective}
use yaghan.Base.{
  ℕ, ◌≡◌, ◌≢◌, refl, sym, ap, ◌∙◌, ◌⊎◌, inl, inr, true, false, Option, none, some, if◌then◌else◌,
  ◌==◌, Bool-cases, Option-cases,
}
use yaghan.Base.Text.{Text, text_beq, text_beq_iff, text_eq}
use yaghan.Proto.{Sandbox}
use yaghan.Db.Errors.{already_exists, other_error, Outcome, ok, err}
use yaghan.Db.Dynamo.{
  Condition, member_s, attribute_not_exists, PutResult, stored, rejected, put_failed, GetResult,
  got, get_failed, Client, holds,
}
use yaghan.Db.Sandbox.{
  SandboxAttr, sandbox_id, SandboxItem, Codec, created, to_item, item_of, digest_from_attrs,
  fetch_stored_item, create_retry, create_result, create, create_digest,
}

-- The item that toItem builds.
pub to_item-item_of :
    (c : Codec) (sb : Sandbox) (d : Text) (item : SandboxItem)
    → to_item c sb d ≡ some item
    → (b : Text) × (c.marshal sb ≡ some b) × (item ≡ item_of c sb d b)
unfolding to_item
to_item-item_of c sb d item e = elim (Option-cases (c.marshal sb)) [
  | inl f ↦ let bad : none ≡ some item = sym (rw (f, to_item) refl) ∙ e in cc
  | inr (b, f) ↦ (b, f, some-injective _ _ (sym e ∙ rw (f, to_item) refl))
]

pub to_item-key :
    (c : Codec) (sb : Sandbox) (d : Text) (item : SandboxItem)
    → to_item c sb d ≡ some item
    → item sandbox_id ≡ some (member_s sb.metadata.id)
unfolding item_of
to_item-key c sb d item e = let (b, _, f) = to_item-item_of c sb d item e in rw f refl

module _ (c : Codec) (db : Client SandboxAttr sandbox_id) where
  open db use {
    Table, row, put_item, get_item, put_stored, put_rejected, put_unknown, get_got, row_key,
  }

  -- No row has changed.
  abbrev pub Unchanged : Table → Table → Type 0
  Unchanged t u = (j : Text) → row u j ≡ row t j

  -- The row `k` was written and no other.
  abbrev pub Wrote : Table → Table → Text → SandboxItem → Type 0
  Wrote t u k item = (j : Text) → row u j ≡ (if k == j then some item else row t j)

  -- The row that is read after a failed condition is the row as it was before.
  pub fetch-row :
      (t u : Table) (old : Option SandboxItem) (k : Text) (o : Option SandboxItem)
      → Unchanged t u
      → (old ≡ none) ⊎ (old ≡ row t k)
      → fetch_stored_item c db u old k ≡ got o
      → o ≡ row t k
  unfolding fetch_stored_item
  fetch-row t u none k o same from e = get_got u k o e ∙ same k
  fetch-row t u (some item) k o same (inl e) f = cc
  fetch-row t u (some item) k o same (inr e) f = cc

  -- A row that lacks its key is absent.
  pub absent-row :
      (t : Table) (k : Text)
      → holds (attribute_not_exists sandbox_id) (row t k) ≡ true
      → row t k ≡ none
  absent-row t k h = elim (Option-cases (row t k)) [
    | inl e ↦ e
    | inr (item, e) ↦
        let present : holds (attribute_not_exists sandbox_id) (row t k) ≡ false =
          rw e (rw (row_key t k item e, holds) refl) in
        cc
  ]

  -- Why a write of the sandbox `sb` under a condition can fail: it has no digest or no encoding, and
  -- then nothing is written; the outcome of the write is not known; or the write was rejected, and
  -- the row that stands in its way cannot be read or carries no digest.
  pub data Fault (t u : Table) (sb : Sandbox) (digest : Option Text) (cond : Condition SandboxAttr)
      : Type 0 where
    undigested : digest ≡ none → Unchanged t u → Fault t u sb digest cond
    unencoded :
        (d : Text)
        → digest ≡ some d
        → to_item c sb d ≡ none
        → Unchanged t u
        → Fault t u sb digest cond
    unknown :
        (d : Text) (item : SandboxItem)
        → digest ≡ some d
        → to_item c sb d ≡ some item
        → put_item t item cond ≡ (u, put_failed)
        → Unchanged t u
          ⊎ ((holds cond (row t sb.metadata.id) ≡ true) × Wrote t u sb.metadata.id item)
        → Fault t u sb digest cond
    unread : get_item u sb.metadata.id ≡ get_failed → Unchanged t u → Fault t u sb digest cond
    no_digest :
        (old : SandboxItem)
        → row t sb.metadata.id ≡ some old
        → digest_from_attrs (some old) ≡ none
        → Unchanged t u
        → Fault t u sb digest cond

  pub unread-fetch :
      (u : Table) (old : Option SandboxItem) (k : Text)
      → fetch_stored_item c db u old k ≡ get_failed
      → get_item u k ≡ get_failed
  unfolding fetch_stored_item
  unread-fetch u none k e = e
  unread-fetch u (some item) k e = cc

  -- Every way that Create can end: the row is inserted, or it exists and stays as it is, and then the
  -- call succeeds if the content is the same and fails otherwise, or one of the faults above.
  pub data CreateOutcome (t : Table) (now : ℕ) (sb : Sandbox) (r : Table × Outcome Sandbox)
      : Type 0 where
    inserted :
        (d : Text) (item : SandboxItem)
        → create_digest c now sb ≡ some d
        → to_item c (created now sb) d ≡ some item
        → row t sb.metadata.id ≡ none
        → Wrote t r.0 sb.metadata.id item
        → r.1 ≡ ok (created now sb)
        → CreateOutcome t now sb r
    repeated :
        (d : Text) (old : SandboxItem)
        → create_digest c now sb ≡ some d
        → row t sb.metadata.id ≡ some old
        → digest_from_attrs (some old) ≡ some d
        → Unchanged t r.0
        → r.1 ≡ ok (created now sb)
        → CreateOutcome t now sb r
    clashed :
        (d e : Text) (old : SandboxItem)
        → create_digest c now sb ≡ some d
        → row t sb.metadata.id ≡ some old
        → digest_from_attrs (some old) ≡ some e
        → e ≢ d
        → Unchanged t r.0
        → r.1 ≡ err already_exists
        → CreateOutcome t now sb r
    broken :
        Fault t r.0 (created now sb) (create_digest c now sb) (attribute_not_exists sandbox_id)
        → r.1 ≡ err other_error
        → CreateOutcome t now sb r

  module _ (t : Table) (now : ℕ) (sb : Sandbox) (d : Text)
      (known : create_digest c now sb ≡ some d) where
    row_digest :
        (k : Text) (o : Option SandboxItem) (e : Text)
        → o ≡ row t k
        → digest_from_attrs o ≡ some e
        → (old : SandboxItem) × (row t k ≡ some old) × (digest_from_attrs (some old) ≡ some e)
    unfolding digest_from_attrs
    row_digest k none e p q = cc
    row_digest k (some old) e p q = (old, sym p, q)

    retry-CreateOutcome :
        (u : Table) (g : GetResult SandboxAttr)
        → Unchanged t u
        → (g ≡ get_failed → get_item u sb.metadata.id ≡ get_failed)
        → ((o : Option SandboxItem) → g ≡ got o → o ≡ row t sb.metadata.id)
        → holds (attribute_not_exists sandbox_id) (row t sb.metadata.id) ≡ false
        → CreateOutcome t now sb (u, create_retry c db (created now sb) d g)
    unfolding create_retry
    retry-CreateOutcome u get_failed same lost from taken = broken (unread (lost refl) same) refl
    retry-CreateOutcome u (got none) same lost from taken =
        let absent = sym (from none refl) in let bad : true ≡ false = rw absent at taken in cc
    retry-CreateOutcome u (got (some o)) same lost from taken =
        elim (Option-cases (digest_from_attrs (some o))) [
          | inl e ↦
              broken (no_digest o (sym (from (some o) refl)) e same) (rw (e, create_retry) refl)
          | inr (x, e) ↦
              let (old, there, dig) = row_digest sb.metadata.id (some o) x (from (some o) refl) e in
              elim (Bool-cases (text_beq d x)) [
                | inl eq ↦
                    repeated d old known there (dig ∙ ap some (sym ((text_beq_iff d x).0 eq))) same
                      (rw (e, create_retry) (rw eq refl))
                | inr ne ↦
                    clashed d x old known there dig (λ q. cc ((text_beq_iff d x).1 (sym q))) same
                      (rw (e, create_retry) (rw ne refl))
              ]
        ]

    put-CreateOutcome :
        (item : SandboxItem) (r : Table × PutResult SandboxAttr)
        → to_item c (created now sb) d ≡ some item
        → put_item t item (attribute_not_exists sandbox_id) ≡ r
        → CreateOutcome t now sb (create_result c db (created now sb) d r)
    unfolding create_result
    put-CreateOutcome item (u, stored) made e =
        let key = to_item-key c (created now sb) d item made in
        let law =
          put_stored t item (attribute_not_exists sandbox_id) sb.metadata.id key (rw e refl) in
        inserted d item known made (absent-row t sb.metadata.id law.0) (rw e at law.1) refl
    put-CreateOutcome item (u, put_failed) made e =
        let key = to_item-key c (created now sb) d item made in
        let law =
          put_unknown t item (attribute_not_exists sandbox_id) sb.metadata.id key (rw e refl) in
        broken (unknown d item known made e (rw e at law)) refl
    put-CreateOutcome item (u, rejected old) made e =
        let key = to_item-key c (created now sb) d item made in
        let law =
          put_rejected t item (attribute_not_exists sandbox_id) sb.metadata.id old key
            (rw e refl) in
        let same : Unchanged t u = rw e at law.1 in
        retry-CreateOutcome u (fetch_stored_item c db u old sb.metadata.id) same
          (unread-fetch u old sb.metadata.id)
          (λ o g. fetch-row t u old sb.metadata.id o same law.2 g) law.0

  -- Create ends in one of four ways, whatever the table holds: it inserts the row, which was absent; it
  -- reports success and changes nothing, since the row is there with the same content; it reports that
  -- the id is taken, the content being different; or an encoding or a call of the database fails, or
  -- the row has no digest, and then it reports so and the row is as before or was absent and inserted.
  pub create-CreateOutcome :
      (t : Table) (now : ℕ) (sb : Sandbox) → CreateOutcome t now sb (create c db now sb t)
  unfolding create
  create-CreateOutcome t now sb = elim (Option-cases (create_digest c now sb)) [
    | inl e ↦ rw (e, create) (broken (undigested e (λ j. refl)) refl)
    | inr (d, e) ↦ elim (Option-cases (to_item c (created now sb) d)) [
      | inl f ↦ rw (e, create) (rw f (broken (unencoded d e f (λ j. refl)) refl))
      | inr (item, f) ↦
          rw (e, create)
            (rw f (
              put-CreateOutcome t now sb d e item
                (put_item t item (attribute_not_exists sandbox_id)) f refl))
    ]
  ]
