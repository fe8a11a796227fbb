-- ===== src/Db/Node/Refinement.antt =====
-- Put of api-server/pkg/db/node/dynamodb/dynamodb.go as a compare-and-set register.
use mathlib.Core.Path.{subst}
use yaghan.Base.{
  ℕ, ◌+◌, ◌≡◌, ◌≢◌, refl, sym, ap, ◌∙◌, ◌⊎◌, inl, inr, false, Option, none, some, if◌then◌else◌,
  ◌==◌, Bool-cases, Option-cases,
}
use yaghan.Base.Text.{Text, text_beq, text_beq_iff, text_eq}
use yaghan.Db.Errors.{other_error, Outcome, err}
use yaghan.Db.Dynamo.{PutResult, stored, rejected, put_failed, GetResult, got, get_failed, Client}
use yaghan.Db.Node.{
  Node, NodeAttr, node_id, NodeItem, NodeCodec, stamped, persisted, content_digest, to_item,
  put_condition, fetch_stored_item, put_retry, put_result, put,
}
use yaghan.Db.Node.Register.{
  Register, Represents, conflict, diagnose_put_conflict-conflict, digest_from_attrs-Represents,
  error_of, holds-put_condition, next_version, one_row-key, same_contents, to_item-one_row,
  write_register, write_register-admitted, write_register-refused,
}

module _ (c : NodeCodec) (db : Client NodeAttr node_id) where
  open db use {
    Table, row, put_item, get_item, put_stored, put_rejected, put_unknown, get_got, row_key,
  }

  put_retry-error :
      (id : Text) (v : ℕ) (n : Node) (digest : Text) (o : Option NodeItem) (r : Register)
      → Represents id o r
      → error_of (put_retry c db v n digest (got o))
        ≡ (if same_contents digest r then none else some (conflict v r))
  unfolding put_retry
  put_retry-error id v n digest o none rep =
      rw
        (
          put_retry,
          digest_from_attrs-Represents id o none rep,
          diagnose_put_conflict-conflict id v o none rep,
        )
        refl
  put_retry-error id v n digest o (some q) rep = elim (Bool-cases (text_beq digest q.1)) [
    | inl e ↦ rw (put_retry, digest_from_attrs-Represents id o (some q) rep, e) refl
    | inr e ↦
        rw
          (
            put_retry,
            digest_from_attrs-Represents id o (some q) rep,
            e,
            diagnose_put_conflict-conflict id v o (some q) rep,
          )
          refl
  ]

  -- The row that is read after a failed condition is the row as it was before.
  fetch-row :
      (t u : Table) (old : Option NodeItem) (k : Text) (o : Option NodeItem)
      → ((j : Text) → row u j ≡ row t j)
      → (old ≡ none) ⊎ (old ≡ row t k)
      → fetch_stored_item c db u old k ≡ got o
      → o ≡ row t k
  unfolding fetch_stored_item
  fetch-row t u none k o same from e = get_got u k o e ∙ same k
  fetch-row t u (some item) k o same (inl e) f = cc
  fetch-row t u (some item) k o same (inr e) f = cc

  unread-error :
      (v : ℕ) (n : Node) (digest : Text)
      → error_of (put_retry c db v n digest get_failed) ≡ some other_error
  unfolding put_retry
  unread-error v n digest = refl

  -- Whether a call did to the rows what a write of the register of one node does.
  Refines : Table → Text → ℕ → Text → Register → Table × Outcome Node → Type 0
  Refines t id v digest r result =
      (error_of result.1 ≡ (write_register v digest r).1)
      × Represents id (row result.0 id) (write_register v digest r).0
      × ((j : Text) → text_beq id j ≡ false → row result.0 j ≡ row t j)

  put_result-Refines :
      (t : Table) (n : Node) (v : ℕ) (digest : Text) (r : Register) (item : NodeItem)
      (p : Table × PutResult NodeAttr)
      → to_item c n digest ≡ some item
      → n.metadata.version ≡ v + 1
      → Represents n.metadata.id (row t n.metadata.id) r
      → put_item t item (put_condition v) ≡ p
      → error_of (put_result c db v n digest p).1 ≢ some other_error
      → Refines t n.metadata.id v digest r (put_result c db v n digest p)
  unfolding put_result Refines write_register
  put_result-Refines t n v digest r item (u, stored) made next rep e fine =
      let id = n.metadata.id in
      let new : Represents id (some item) (some (v + 1, digest)) =
        subst (λ w. Represents id (some item) (some (w, digest))) next
          (to_item-one_row c n digest item made) in
      let law = put_stored t item (put_condition v) id (one_row-key id item _ new) (rw e refl) in
      let wrote : (j : Text) → row u j ≡ (if id == j then some item else row t j) = rw e at law.1 in
      let w : write_register v digest r ≡ (some (v + 1, digest), none) =
        write_register-admitted v digest r
          (sym (holds-put_condition id v (row t id) r rep) ∙ law.0) in
      let there : row u id ≡ some item = wrote id ∙ rw ((text_beq_iff id id).1 refl) refl in
      (
        ap (λ q. q.1) (sym w),
        subst (Represents id (row u id)) (ap (λ q. q.0) (sym w))
            (subst (λ o. Represents id o (some (v + 1, digest))) (sym there) new),
        λ j other. wrote j ∙ rw other refl,
      )
  put_result-Refines t n v digest r item (u, put_failed) made next rep e fine = elim (fine refl) [ ]
  put_result-Refines t n v digest r item (u, rejected old) made next rep e fine =
      let id = n.metadata.id in
      let key = one_row-key id item _ (to_item-one_row c n digest item made) in
      let law = put_rejected t item (put_condition v) id old key (rw e refl) in
      let kept : (j : Text) → row u j ≡ row t j = rw e at law.1 in
      let w =
        write_register-refused v digest r
          (sym (holds-put_condition id v (row t id) r rep) ∙ law.0) in
      (
        by_fetch (fetch_stored_item c db u old id) refl kept law.2 ∙ ap (λ q. q.1) (sym w),
        subst (Represents id (row u id)) (ap (λ q. q.0) (sym w))
            (subst (λ o. Represents id o r) (sym (kept id)) rep),
        λ j other. kept j,
      )
    where
      by_fetch :
          (g : GetResult NodeAttr)
          → fetch_stored_item c db u old n.metadata.id ≡ g
          → ((j : Text) → row u j ≡ row t j)
          → (old ≡ none) ⊎ (old ≡ row t n.metadata.id)
          → error_of (put_retry c db v n digest (fetch_stored_item c db u old n.metadata.id))
            ≡ (if same_contents digest r then none else some (conflict v r))
      by_fetch get_failed f kept from =
          elim (fine
            (ap (λ g. error_of (put_retry c db v n digest g)) f ∙ unread-error v n digest)) [ ]
      by_fetch (got o) f kept from =
          ap (λ g. error_of (put_retry c db v n digest g)) f
          ∙ put_retry-error n.metadata.id v n digest o r (
              subst (λ x. Represents n.metadata.id x r)
                (sym (fetch-row t u old n.metadata.id o kept from f)) rep)

  unencoded :
      (t : Table) (now : ℕ) (n : Node) (digest : Text)
      → content_digest c (stamped now n) ≡ some digest
      → to_item c (persisted now n) digest ≡ none
      → (put c db now n t).1 ≡ err other_error
  unfolding put
  unencoded t now n digest e f = rw (put, e) (rw f refl)

  -- Put refines a register that holds a version and a digest: if the node's contents have a digest and
  -- the call does not end in a failure of the encoding or of the database, the node's row stands
  -- afterwards for what the register holds after the write that expects the node's version, the error
  -- is the one of that write, and no other row has changed. The write replaces the contents where the
  -- version is the expected one, 0 standing for none; otherwise it succeeds if the contents have the
  -- same digest, and fails with AlreadyExists, NotFound or VersionConflict if not.
  pub put-write_register :
      (t : Table) (now : ℕ) (n : Node) (digest : Text) (r : Register)
      → content_digest c (stamped now n) ≡ some digest
      → Represents n.metadata.id (row t n.metadata.id) r
      → error_of (put c db now n t).1 ≢ some other_error
      → (error_of (put c db now n t).1 ≡ (write_register n.metadata.version digest r).1)
        × Represents n.metadata.id
            (row (put c db now n t).0 n.metadata.id)
            (write_register n.metadata.version digest r).0
        × ((j : Text) → text_beq n.metadata.id j ≡ false → row (put c db now n t).0 j ≡ row t j)
  unfolding put Refines
  put-write_register t now n digest r e rep fine =
      elim (Option-cases (to_item c (persisted now n) digest)) [
        | inl f ↦ elim (fine (ap error_of (unencoded t now n digest e f))) [ ]
        | inr (item, f) ↦
            let same : put c db now n t
                ≡ put_result c db n.metadata.version (persisted now n) digest
                    (put_item t item (put_condition n.metadata.version)) =
              rw (put, e) (rw f refl) in
            simp same (
              put_result-Refines t (persisted now n) n.metadata.version digest r item _ f
                (next_version n.metadata.version) rep refl
                (λ q. fine (ap (λ p. error_of p.1) same ∙ q)))
      ]
