-- ===== src/Db/Sandbox/Versions.antt =====
-- What clients of the sandbox table may rely on: retries change nothing, no update is lost, and reads
-- return what was written (api-server/pkg/db/sandbox/db.go).
use mathlib.Core.Option.{some-injective}
use yaghan.Base.{
  true, ℕ, ◌+◌, ◌≡◌, ◌≢◌, refl, sym, ap, ◌∙◌, ◌⊎◌, inl, inr, Option, none, some, beq_refl, arith,
}
use yaghan.Base.Text.{Text, text_eq}
use yaghan.Proto.{status_phase, Sandbox}
use yaghan.Db.Errors.{other_error, Outcome, ok, err}
use yaghan.Db.Dynamo.{
  Condition, attribute_not_exists, holds, member_n, GetResult, got, get_failed, Client,
}
use yaghan.Db.Sandbox.{
  update_condition, update_digest, SandboxAttr, sandbox_id, sandbox_version, SandboxItem, Codec,
  created, updated, create_digest, content_digest, canonical, to_item, item_of, digest_from_attrs,
  create, update, get, sandbox_from_attrs,
}
use yaghan.Db.Sandbox.Create.{
  absent-row, Fault, to_item-item_of, Unchanged, Wrote, CreateOutcome, create-CreateOutcome,
}
use yaghan.Db.Sandbox.Update.{update_condition-holds, UpdateOutcome, update-UpdateOutcome}

-- A row that toItem built gives the sandbox back.
sandbox_from_attrs-to_item :
    (c : Codec) (sb : Sandbox) (d : Text) (item : SandboxItem)
    → to_item c sb d ≡ some item
    → sandbox_from_attrs c item ≡ ok sb
unfolding sandbox_from_attrs item_of
sandbox_from_attrs-to_item c sb d item e =
    let (b, m, f) = to_item-item_of c sb d item e in
    rw (f, sandbox_from_attrs) (rw (c.unmarshal-marshal sb b m) refl)

digest-to_item :
    (c : Codec) (sb : Sandbox) (d : Text) (item : SandboxItem)
    → to_item c sb d ≡ some item
    → digest_from_attrs (some item) ≡ some d
unfolding digest_from_attrs item_of
digest-to_item c sb d item e = let (b, m, f) = to_item-item_of c sb d item e in rw f refl

version-to_item :
    (c : Codec) (sb : Sandbox) (d : Text) (item : SandboxItem)
    → to_item c sb d ≡ some item
    → item sandbox_version ≡ some (member_n sb.metadata.version)
unfolding item_of
version-to_item c sb d item e = let (b, m, f) = to_item-item_of c sb d item e in rw f refl

-- The digest of a Create depends neither on the time nor on the node.
create_digest-retry :
    (c : Codec) (now later : ℕ) (sb : Sandbox) (n : Option Text)
    → create_digest c later (record sb { node = n }) ≡ create_digest c now sb
unfolding create_digest content_digest canonical
create_digest-retry c now later sb n = refl

module _ (c : Codec) (db : Client SandboxAttr sandbox_id) where
  open db use {Table, row, get_item, get_got}

  Wrote-self :
      (t u : Table) (k : Text) (item : SandboxItem) → Wrote c db t u k item → row u k ≡ some item
  Wrote-self t u k item w = w k ∙ rw (beq_refl k) refl

  get-row :
      (t : Table) (k : Text) (item : SandboxItem)
      → row t k ≡ some item
      → get_item t k ≢ get_failed
      → get c db k t ≡ sandbox_from_attrs c item
  unfolding get
  get-row t k item e reached = go (get_item t k) refl
    where
      go : (g : GetResult SandboxAttr) → get_item t k ≡ g → get c db k t ≡ sandbox_from_attrs c item
      go get_failed f = absurd (reached f)
      go (got o) f = rw (f, get) (rw (get_got t k o f ∙ e) refl)

  -- A fault changes no row if the condition does not hold.
  Fault-Unchanged :
      (t u : Table) (sb : Sandbox) (digest : Option Text) (cond : Condition SandboxAttr)
      → Fault c db t u sb digest cond
      → ¬ (holds cond (row t sb.metadata.id) ≡ true)
      → Unchanged c db t u
  Fault-Unchanged t u sb digest cond (Fault.undigested _ same) shut = same
  Fault-Unchanged t u sb digest cond (Fault.unencoded _ _ _ same) shut = same
  Fault-Unchanged t u sb digest cond (Fault.unknown _ _ _ _ _ (inl same)) shut = same
  Fault-Unchanged t u sb digest cond (Fault.unknown _ _ _ _ _ (inr (h, w))) shut = absurd (shut h)
  Fault-Unchanged t u sb digest cond (Fault.unread _ same) shut = same
  Fault-Unchanged t u sb digest cond (Fault.no_digest _ _ _ same) shut = same

  -- After a Create of an id that had no row and that reported success, a Get of the id that reaches the
  -- table returns the sandbox that Create reported.
  pub get-create :
      (t : Table) (now : ℕ) (sb s : Sandbox)
      → row t sb.metadata.id ≡ none
      → (create c db now sb t).1 ≡ ok s
      → get_item (create c db now sb t).0 sb.metadata.id ≢ get_failed
      → get c db sb.metadata.id (create c db now sb t).0 ≡ ok s
  get-create t now sb s fresh done reached = go (create-CreateOutcome c db t now sb)
    where
      u : Table
      u = (create c db now sb t).0

      go : CreateOutcome c db t now sb (create c db now sb t) → get c db sb.metadata.id u ≡ ok s
      go (CreateOutcome.inserted d item k made free wrote e) =
          get-row u sb.metadata.id item (Wrote-self t u sb.metadata.id item wrote) reached
          ∙ sandbox_from_attrs-to_item c (created now sb) d item made
          ∙ sym e
          ∙ done
      go (CreateOutcome.repeated d old k there dig same e) = cc
      go (CreateOutcome.clashed d x old k there dig ne same e) = cc
      go (CreateOutcome.broken f e) = cc

  -- A Create that is retried after it has inserted its row, at a later time and perhaps with another
  -- node, changes no row; it reports success, with the node of the retry, or that an encoding or a call
  -- of the database failed.
  pub create_retry_keeps :
      (t : Table) (now later : ℕ) (sb s : Sandbox) (n : Option Text)
      → row t sb.metadata.id ≡ none
      → (create c db now sb t).1 ≡ ok s
      → let u = (create c db now sb t).0 in
        let retry = create c db later (record sb { node = n }) u in
        Unchanged c db u retry.0
        × ((retry.1 ≡ ok (created later (record sb { node = n }))) ⊎ (retry.1 ≡ err other_error))
  create_retry_keeps t now later sb s n fresh done = go (create-CreateOutcome c db t now sb)
    where
      u : Table
      u = (create c db now sb t).0

      sb' : Sandbox
      sb' = record sb { node = n }

      r : Table × Outcome Sandbox
      r = create c db later sb' u

      Kept : Type 0
      Kept = Unchanged c db u r.0 × ((r.1 ≡ ok (created later sb')) ⊎ (r.1 ≡ err other_error))

      second :
          (d : Text) (item : SandboxItem)
          → create_digest c now sb ≡ some d
          → digest_from_attrs (some item) ≡ some d
          → row u sb.metadata.id ≡ some item
          → CreateOutcome c db u later sb' r
          → Kept
      second d item k dig there (CreateOutcome.inserted _ _ _ _ free _ _) = cc
      second d item k dig there (CreateOutcome.repeated _ _ _ _ _ same e) = (same, inl e)
      second d item k dig there (CreateOutcome.clashed d' x old k' there' dig' ne same e) = absurd (
          ne (
            some-injective x d (
              sym dig'
              ∙ ap (λ o. digest_from_attrs (some o))
                  (sym (some-injective item old (sym there ∙ there')))
              ∙ dig)
            ∙ some-injective d d' (sym k ∙ sym (create_digest-retry c now later sb n) ∙ k')))
      second d item k dig there (CreateOutcome.broken f e) = (
        Fault-Unchanged u r.0 (created later sb') (create_digest c later sb')
            (attribute_not_exists sandbox_id) f (λ h. cc (absent-row c db u sb.metadata.id h)),
        inr e,
      )

      go : CreateOutcome c db t now sb (create c db now sb t) → Kept
      go (CreateOutcome.inserted d item k made free wrote e) =
          second d item k (digest-to_item c (created now sb) d item made)
            (Wrote-self t u sb.metadata.id item wrote) (create-CreateOutcome c db u later sb')
      go (CreateOutcome.repeated d old k there dig same e) = cc
      go (CreateOutcome.clashed d x old k there dig ne same e) = cc
      go (CreateOutcome.broken f e) = cc

  stale_version :
      (a b : Sandbox) (item old : SandboxItem)
      → a.metadata.version ≡ b.metadata.version
      → item sandbox_version ≡ some (member_n (a.metadata.version + 1))
      → old sandbox_version ≡ some (member_n b.metadata.version)
      → item ≡ old
      → ⊥
  stale_version a b item old v p q e =
      let both : member_n (a.metadata.version + 1) ≡ member_n b.metadata.version =
        some-injective _ _ (sym p ∙ ap (λ i. i sandbox_version) e ∙ q) in
      absurd (ground arith)

  -- No update is lost: of two Updates of one id that read the same version, the second changes no row
  -- once the first has succeeded and changed one, even if a call of the database fails in the second.
  pub no_lost_update :
      (t : Table) (now later : ℕ) (a b s : Sandbox)
      → a.metadata.id ≡ b.metadata.id
      → a.metadata.version ≡ b.metadata.version
      → (update c db now a t).1 ≡ ok s
      → ¬ Unchanged c db t (update c db now a t).0
      → let u = (update c db now a t).0 in Unchanged c db u (update c db later b u).0
  no_lost_update t now later a b s same_id same_version done changed =
      go (update-UpdateOutcome c db t now a)
    where
      u : Table
      u = (update c db now a t).0

      r : Table × Outcome Sandbox
      r = update c db later b u

      stale :
          (item : SandboxItem)
          → item sandbox_version ≡ some (member_n (a.metadata.version + 1))
          → row u a.metadata.id ≡ some item
          → ¬ (
              holds (update_condition b.metadata.version (status_phase b)) (row u b.metadata.id)
              ≡ true)
      stale item v there h =
          let (old, there', w, _, _) =
            update_condition-holds b.metadata.version (status_phase b) (row u b.metadata.id) h in
          stale_version a b item old same_version v w
            (some-injective item old (sym there ∙ ap (row u) same_id ∙ there'))

      second :
          (item : SandboxItem)
          → item sandbox_version ≡ some (member_n (a.metadata.version + 1))
          → row u a.metadata.id ≡ some item
          → UpdateOutcome c db u later b r
          → Unchanged c db u r.0
      second item v there (UpdateOutcome.replaced _ _ old _ _ there' w _ _ _ _) = absurd (
          stale_version a b item old same_version v w
            (some-injective item old (sym there ∙ ap (row u) same_id ∙ there')))
      second item v there (UpdateOutcome.repeated _ _ _ _ _ _ same _) = same
      second item v there (UpdateOutcome.missing _ same _) = same
      second item v there (UpdateOutcome.conflicted _ _ _ _ _ _ same _) = same
      second item v there (UpdateOutcome.broken f e) =
          Fault-Unchanged u r.0 (updated later b) (update_digest c later b)
            (update_condition b.metadata.version (status_phase b)) f (stale item v there)

      go : UpdateOutcome c db t now a (update c db now a t) → Unchanged c db u r.0
      go (UpdateOutcome.replaced d item old k made there w f prior wrote e) =
          second item (version-to_item c (updated now a) d item made)
            (Wrote-self t u a.metadata.id item wrote) (update-UpdateOutcome c db u later b)
      go (UpdateOutcome.repeated _ _ _ _ _ _ same _) = absurd (changed same)
      go (UpdateOutcome.missing _ same _) = absurd (changed same)
      go (UpdateOutcome.conflicted _ _ _ _ _ _ same _) = absurd (changed same)
      go (UpdateOutcome.broken f e) = cc
