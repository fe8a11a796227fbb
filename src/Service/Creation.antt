-- ===== src/Service/Creation.antt =====
-- CreateSandbox of api-server/pkg/service/sandbox.go with the checks of the sandbox's source. The
-- scheduler and the database of snapshots are parameters.
use yaghan.Base.{
  ℕ, ◌≡◌, ◌⊎◌, inl, inr, refl, sym, ap, ◌∙◌, [], Option, none, some, if◌then◌else◌, Bool-cases,
  Option-cases,
}
use yaghan.Base.Text.{Text, text_beq, text_beq_iff}
use yaghan.Proto.{
  phase_pending, phase_running, Reference, snapshot_id, image_id, Resources, Sandbox, Snapshot,
}
use yaghan.Db.Errors.{
  Code, invalid_argument, not_found_code, failed_precondition, internal, unimplemented, Error,
  not_found, Outcome, ok, err,
}
use yaghan.Db.Dynamo.{Client}
use yaghan.Db.Sandbox.{SandboxAttr, sandbox_id, Codec, create, with_version}
use yaghan.Db.Sandbox.Create.{Unchanged, Fault, CreateOutcome, create-CreateOutcome, absent-row}
use yaghan.Service.{Response, status_error, respond}

-- What validateSandboxSource finds: nothing to inherit, a snapshot, or an error.
pub data Source : Type 0 where
  unsourced : Source
  from_snapshot : Snapshot → Source
  bad_source : Code → Source

-- The result of the scheduler: the sandbox's node, or one of its two errors.
pub data Schedule : Type 0 where
  placed : Text → Schedule
  no_healthy_nodes schedule_failed : Schedule

-- The fields of the request that the server owns are overwritten.
unfoldable pub prepared : Sandbox → Sandbox
prepared sb = record (with_version 0 sb) {
  node = none;
  status = some (record { phase = phase_pending; message = [] });
  intent = some (record { phase = phase_running; start_snapshot = none });
}

abbrev lookup_error : Error → Code
lookup_error not_found = not_found_code
lookup_error _ = internal

-- The snapshot that was found, against the sandbox's namespace.
unfoldable pub check_snapshot : Sandbox → Outcome Snapshot → Source
check_snapshot sb (err e) = bad_source (lookup_error e)
check_snapshot sb (ok snap) =
    if text_beq snap.namespace sb.metadata.namespace
    then (elim snap.resources [
      | none ↦ bad_source failed_precondition
      | some r ↦ from_snapshot snap
    ])
    else bad_source failed_precondition

unfoldable pub validate_snapshot_source : (Text → Outcome Snapshot) → Sandbox → Text → Source
validate_snapshot_source snapshots sb id = elim sb.resources [
  | some r ↦ bad_source invalid_argument
  | none ↦ check_snapshot sb (snapshots id)
]

abbrev pub reference_of : Sandbox → Option Reference
reference_of sb = elim sb.metadata.source [ none ↦ none | some s ↦ s.reference ]

abbrev validate_reference : (Text → Outcome Snapshot) → Sandbox → Option Reference → Source
validate_reference snapshots sb none = unsourced
validate_reference snapshots sb (some (snapshot_id id)) = validate_snapshot_source snapshots sb id
validate_reference snapshots sb (some (image_id id)) = bad_source unimplemented

unfoldable pub validate_sandbox_source : (Text → Outcome Snapshot) → Sandbox → Source
validate_sandbox_source snapshots sb = validate_reference snapshots sb (reference_of sb)

-- The sandbox with the resources it will run with, or the code of the refusal.
pub data Resolved : Type 0 where
  resolved : Sandbox → Resolved
  unresolved : Code → Resolved

unfoldable pub resolve : Sandbox → Source → Resolved
resolve sb (bad_source e) = unresolved e
resolve sb (from_snapshot snap) = resolved (record sb { resources = snap.resources })
resolve sb unsourced = elim sb.resources [
  | none ↦ unresolved invalid_argument
  | some r ↦ resolved sb
]

module _ (c : Codec) (db : Client SandboxAttr sandbox_id) (snapshots : Text → Outcome Snapshot)
    (schedule : Sandbox → Schedule) where
  open db use {Table, row}

  unfoldable pub place : ℕ → Sandbox → Schedule → Table → Table × Response
  place now sb no_healthy_nodes t = (t, status_error failed_precondition)
  place now sb schedule_failed t = (t, status_error internal)
  place now sb (placed n) t =
      let r = create c db now (record sb { node = some n }) t in (r.0, respond r.1)

  unfoldable pub admit : ℕ → Resolved → Table → Table × Response
  admit now (unresolved e) t = (t, status_error e)
  admit now (resolved sb) t = place now sb (schedule sb) t

  unfoldable pub create_sandbox : ℕ → Sandbox → Table → Table × Response
  create_sandbox now sb t =
      admit now (resolve (prepared sb) (validate_sandbox_source snapshots (prepared sb))) t

  -- What a request must satisfy for its row to be inserted: it has resources and no source, or it has
  -- none and names a snapshot of its namespace that has.
  abbrev pub Sourced : Sandbox → Type 0
  Sourced sb =
      ((reference_of sb ≡ none) × ((r : Resources) × (sb.resources ≡ some r)))
      ⊎ ((id : Text) × (snap : Snapshot) × (reference_of sb ≡ some (snapshot_id id))
          × (sb.resources ≡ none)
          × (snapshots id ≡ ok snap)
          × (snap.namespace ≡ sb.metadata.namespace)
          × ((r : Resources) × (snap.resources ≡ some r)))

  create-fresh :
      (t : Table) (now : ℕ) (sb : Sandbox)
      → Unchanged c db t (create c db now sb t).0 ⊎ (row t sb.metadata.id ≡ none)
  create-fresh t now sb = go (create-CreateOutcome c db t now sb)
    where
      go :
          CreateOutcome c db t now sb (create c db now sb t)
          → Unchanged c db t (create c db now sb t).0 ⊎ (row t sb.metadata.id ≡ none)
      go (CreateOutcome.inserted d item k made free wrote e) = inr free
      go (CreateOutcome.repeated d old k there dig same e) = inl same
      go (CreateOutcome.clashed d x old k there dig ne same e) = inl same
      go (CreateOutcome.broken (Fault.undigested _ same) e) = inl same
      go (CreateOutcome.broken (Fault.unencoded _ _ _ same) e) = inl same
      go (CreateOutcome.broken (Fault.unknown _ _ _ _ _ (inl same)) e) = inl same
      go (CreateOutcome.broken (Fault.unknown _ _ _ _ _ (inr (h, w))) e) =
          inr (absent-row c db t sb.metadata.id h)
      go (CreateOutcome.broken (Fault.unread _ same) e) = inl same
      go (CreateOutcome.broken (Fault.no_digest _ _ _ same) e) = inl same

  place-fresh :
      (now : ℕ) (sb : Sandbox) (s : Schedule) (t : Table)
      → Unchanged c db t (place now sb s t).0 ⊎ (row t sb.metadata.id ≡ none)
  unfolding place
  place-fresh now sb no_healthy_nodes t = inl (λ j. refl)
  place-fresh now sb schedule_failed t = inl (λ j. refl)
  place-fresh now sb (placed n) t = create-fresh t now (record sb { node = some n })

  -- A snapshot that was looked up is refused, or it is what the sandbox inherits from.
  check_snapshot-cases :
      (sb : Sandbox) (o : Outcome Snapshot)
      → ((e : Code) × (check_snapshot sb o ≡ bad_source e))
        ⊎ ((snap : Snapshot) × (check_snapshot sb o ≡ from_snapshot snap)
            × (o ≡ ok snap)
            × (snap.namespace ≡ sb.metadata.namespace)
            × ((r : Resources) × (snap.resources ≡ some r)))
  unfolding check_snapshot
  check_snapshot-cases sb (err e) = inl (lookup_error e, refl)
  check_snapshot-cases sb (ok snap) =
      elim (Bool-cases (text_beq snap.namespace sb.metadata.namespace)) [
        | inr apart ↦ inl (failed_precondition, rw (apart, check_snapshot) refl)
        | inl same ↦ elim (Option-cases snap.resources) [
          | inl f ↦ inl (failed_precondition, rw (same, check_snapshot) (rw f refl))
          | inr (r, f) ↦ inr (
            snap,
            rw (same, check_snapshot) (simp f),
            refl,
            (text_beq_iff snap.namespace sb.metadata.namespace).0 same,
            (r, f),
          )
        ]
      ]

  resolved-injective : (a b : Sandbox) → resolved a ≡ resolved b → a ≡ b
  resolved-injective a b e = cc

  reference-Sourced :
      (sb x : Sandbox) (o : Option Reference)
      → reference_of sb ≡ o
      → resolve sb (validate_reference snapshots sb o) ≡ resolved x
      → Sourced sb × (x.metadata.id ≡ sb.metadata.id)
  unfolding resolve validate_snapshot_source check_snapshot
  reference-Sourced sb x none f e = elim (Option-cases sb.resources) [
    | inl q ↦ let bad : unresolved invalid_argument ≡ resolved x = rw (q, resolve) at e in cc
    | inr (r, q) ↦
        let known : resolve sb unsourced ≡ resolved sb = simp (q, resolve) in
        (inl (f, (r, q)), ap (λ y. y.metadata.id) (sym (resolved-injective sb x (sym known ∙ e))))
  ]
  reference-Sourced sb x (some (image_id id)) f e = cc
  reference-Sourced sb x (some (snapshot_id id)) f e = elim (Option-cases sb.resources) [
    | inr (r, q) ↦
        let v : validate_snapshot_source snapshots sb id ≡ bad_source invalid_argument =
          rw (q, validate_snapshot_source) refl in
        let bad : unresolved invalid_argument ≡ resolved x = sym (ap (resolve sb) v) ∙ e in cc
    | inl q ↦
        let v : validate_snapshot_source snapshots sb id ≡ check_snapshot sb (snapshots id) =
          rw (q, validate_snapshot_source) refl in
        elim (check_snapshot-cases sb (snapshots id)) [
          | inl (code, b) ↦
              let bad : unresolved code ≡ resolved x = sym (ap (resolve sb) (v ∙ b)) ∙ e in cc
          | inr (snap, b, found, same, has) ↦
              let known : resolved (record sb { resources = snap.resources }) ≡ resolved x =
                sym (ap (resolve sb) (v ∙ b)) ∙ e in
              (
                inr (id, snap, f, q, found, same, has),
                ap (λ y. y.metadata.id) (sym (resolved-injective _ x known)),
              )
        ]
  ]

  -- CreateSandbox changes a row only if the table had none for the id and the request has what a
  -- sandbox boots from: resources and no source, or no resources and a snapshot of its own namespace
  -- that has some. Every refusal leaves all rows as they are.
  pub create_sandbox-Sourced :
      (now : ℕ) (sb : Sandbox) (t : Table)
      → Unchanged c db t (create_sandbox now sb t).0 ⊎ ((row t sb.metadata.id ≡ none) × Sourced sb)
  unfolding create_sandbox validate_sandbox_source prepared admit
  create_sandbox-Sourced now sb t =
      go (resolve (prepared sb) (validate_sandbox_source snapshots (prepared sb))) refl
    where
      go :
          (r : Resolved)
          → resolve (prepared sb) (validate_sandbox_source snapshots (prepared sb)) ≡ r
          → Unchanged c db t (admit now r t).0 ⊎ ((row t sb.metadata.id ≡ none) × Sourced sb)
      go (unresolved e) f = inl (λ j. refl)
      go (resolved x) f =
          let (src, same) = reference-Sourced (prepared sb) x (reference_of (prepared sb)) refl f in
          elim (place-fresh now x (schedule x) t) [
            | inl kept ↦ inl kept
            | inr free ↦ inr (ap (row t) (sym same) ∙ free, src)
          ]
