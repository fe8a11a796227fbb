-- ===== src/Service/Nodes/Registered.antt =====
-- What a successful registration of api-server/pkg/service/cluster_node.go has written.
use yaghan.Base.{
  ℕ, zero, suc, ◌≡◌, refl, sym, ap, ◌∙◌, ◌⊎◌, inl, inr, Option, none, some, if◌then◌else◌,
  Bool-cases,
}
use mathlib.Core.Path.{subst}
use yaghan.Base.Text.{Text}
use yaghan.Db.Errors.{Error, not_found, Outcome, ok, err}
use yaghan.Db.Dynamo.{Client}
use yaghan.Db.Node.{Node, NodeAttr, node_id, NodeCodec, put, get}
use yaghan.Service.Nodes.{
  Attempt, write, give_up, fresh, overlay, plan_registration, is_again, attempts, register_node,
  node_write_max_attempts,
}

Attempt-cases :
    (a : Attempt)
    → ((n : Node) × (again : Error) × (a ≡ write n again)) ⊎ ((e : Error) × (a ≡ give_up e))
Attempt-cases (write n again) = inl (n, again, refl)
Attempt-cases (give_up e) = inr (e, refl)

Outcome-cases : (o : Outcome Node) → ((m : Node) × (o ≡ ok m)) ⊎ ((e : Error) × (o ≡ err e))
Outcome-cases (ok m) = inl (m, refl)
Outcome-cases (err e) = inr (e, refl)

module _ (c : NodeCodec) (db : Client NodeAttr node_id)
    (meanwhile : ℕ → Client.Table db → Client.Table db) where
  open db use {Table}

  -- A successful run ends with a successful Put of a node that was planned from a read.
  Wrote : (Outcome Node → Attempt) → ℕ → Text → Table → Type 0
  Wrote plan now id after =
      (seen before : Table) × (n m : Node) × (again : Error) × (plan (get c db id seen)
        ≡ write n again)
      × (put c db now n before ≡ (after, ok m))

  not_done :
      {P : Type 0} {run : Table × Option Error} (t : Table) (e : Error)
      → run.1 ≡ none
      → run ≡ (t, some e)
      → P
  not_done {P} {run} t e done stopped = cc

  pair_eq : {r : Table × Outcome Node} {o : Outcome Node} → r.1 ≡ o → r ≡ (r.0, o)
  pair_eq {r} wrote = ap (λ o. (r.0, o)) wrote

  attempts_gave_up :
      (plan : Outcome Node → Attempt) (left now : ℕ) (id : Text) (t : Table) (e : Error)
      → plan (get c db id t) ≡ give_up e
      → attempts c db meanwhile plan (suc left) now id t ≡ (t, some e)
  unfolding attempts
  attempts_gave_up plan left now id t e gave_up = rw (attempts, gave_up) refl

  attempts-put :
      (plan : Outcome Node → Attempt) (left now : ℕ) (id : Text) (t : Table) (n m : Node)
      (again : Error)
      → plan (get c db id t) ≡ write n again
      → (put c db now n (meanwhile left t)).1 ≡ ok m
      → attempts c db meanwhile plan (suc left) now id t
        ≡ ((put c db now n (meanwhile left t)).0, none)
  unfolding attempts
  attempts-put plan left now id t n m again planned wrote = rw (attempts, planned, wrote) refl

  attempts_failed :
      (plan : Outcome Node → Attempt) (left now : ℕ) (id : Text) (t : Table) (n : Node)
      (again e : Error)
      → plan (get c db id t) ≡ write n again
      → (put c db now n (meanwhile left t)).1 ≡ err e
      → (let after = (put c db now n (meanwhile left t)).0 in
          attempts c db meanwhile plan (suc left) now id t ≡ (
            if is_again e again
            then attempts c db meanwhile plan left now id after
            else (after, some e)))
  unfolding attempts
  attempts_failed plan left now id t n again e planned failed = rw (attempts, planned, failed) refl

  again_Wrote :
      (plan : Outcome Node → Attempt) (now : ℕ) (id : Text) {run : Table × Option Error}
      (rest : Table × Option Error)
      → run ≡ rest
      → run.1 ≡ none
      → (rest.1 ≡ none → Wrote plan now id rest.0)
      → Wrote plan now id run.0
  again_Wrote plan now id rest same done wrote =
      subst (λ r. Wrote plan now id r.0) (sym same) (wrote (sym (ap (λ r. r.1) same) ∙ done))

  attempts-Wrote :
      (plan : Outcome Node → Attempt) (left now : ℕ) (id : Text) (t : Table)
      → (attempts c db meanwhile plan left now id t).1 ≡ none
      → Wrote plan now id (attempts c db meanwhile plan left now id t).0
  unfolding attempts Wrote
  attempts-Wrote plan zero now id t done = cc
  attempts-Wrote plan (suc left) now id t done = elim (Attempt-cases (plan (get c db id t))) [
    | inr (e, gave_up) ↦ not_done t e done (attempts_gave_up plan left now id t e gave_up)
    | inl (n, again, planned) ↦ elim (Outcome-cases (put c db now n (meanwhile left t)).1) [
      | inl (m, wrote) ↦
          subst (λ r. Wrote plan now id r.0)
            (sym (attempts-put plan left now id t n m again planned wrote))
            (t, meanwhile left t, n, m, again, planned, pair_eq wrote)
      | inr (e, failed) ↦ elim (Bool-cases (is_again e again)) [
        | inl tried ↦
            let after = (put c db now n (meanwhile left t)).0 in
            again_Wrote plan now id (attempts c db meanwhile plan left now id after)
              (attempts_failed plan left now id t n again e planned failed ∙ rw tried refl) done
              (attempts-Wrote plan left now id after)
        | inr stopped ↦
            not_done (put c db now n (meanwhile left t)).0 e done
              (attempts_failed plan left now id t n again e planned failed ∙ rw stopped refl)
      ]
    ]
  ]

-- A node that carries what its daemon reports, with the metadata of a first registration or of the node
-- that was read.
abbrev pub IsRegistration : Node → Outcome Node → Node → Type 0
IsRegistration payload seen n =
    (n.resources ≡ payload.resources)
    × (n.metrics ≡ payload.metrics)
    × (n.status ≡ payload.status)
    × (n.provider_metadata ≡ payload.provider_metadata)
    × ((n.metadata.id ≡ payload.metadata.id) × (n.metadata.version ≡ 0) × (seen ≡ err not_found)
        ⊎ ((saved : Node) × (seen ≡ ok saved) × (n.metadata ≡ saved.metadata)))

written : {n m : Node} {a b : Error} → write n a ≡ write m b → n ≡ m
written {n} {m} {a} {b} e = cc

plan_registration-IsRegistration :
    (payload : Node) (seen : Outcome Node) {n : Node} {again : Error}
    → plan_registration payload seen ≡ write n again
    → IsRegistration payload seen n
unfolding plan_registration overlay fresh
plan_registration-IsRegistration payload (ok saved) e =
    subst (IsRegistration payload (ok saved)) (written e)
      (refl, refl, refl, refl, inr (saved, refl, refl))
plan_registration-IsRegistration payload (err not_found) e =
    subst (IsRegistration payload (err not_found)) (written e)
      (refl, refl, refl, refl, inl (refl, refl, refl))
plan_registration-IsRegistration payload (err other) e = cc

-- When registering the node of a daemon succeeds, whatever other writers do between the reads and the
-- writes, the table it leaves is that of a successful Put of a node that has the resources, metrics,
-- status and provider metadata of the payload. Its metadata is that of a node which a Get of the id
-- returned, or, where a Get found none, it has the id of the payload and version 0.
pub register_node-IsRegistration :
    (c : NodeCodec) (db : Client NodeAttr node_id)
    (meanwhile : ℕ → Client.Table db → Client.Table db) (now : ℕ) (payload : Node)
    (t : Client.Table db)
    → (register_node c db meanwhile now payload t).1 ≡ none
    → (seen before : Client.Table db) × (n m : Node) × IsRegistration payload
        (get c db payload.metadata.id seen)
        n
      × (put c db now n before ≡ ((register_node c db meanwhile now payload t).0, ok m))
unfolding register_node Wrote
register_node-IsRegistration c db meanwhile now payload t done =
    let (seen, before, n, m, again, planned, wrote) =
      attempts-Wrote c db meanwhile (plan_registration payload) node_write_max_attempts now
        payload.metadata.id t done in
    (seen, before, n, m, plan_registration-IsRegistration payload _ planned, wrote)
