-- ===== src/Db/Sandbox/Update.antt =====
-- What Update of api-server/pkg/db/sandbox/dynamodb/dynamodb.go does to the table.
use mathlib.Core.Option.{some-injective}
use yaghan.Base.{
  ◌⊎◌, ℕ, ◌≡◌, ◌≢◌, refl, sym, ap, ◌∙◌, inl, inr, true, false, ◌||◌, not, List, [], ◌∷◌, Option,
  none, some, Bool-cases, Option-cases, arith, nat_beq_iff,
}
use yaghan.Base.Text.{Text, text_beq, text_beq_iff, text_eq}
use yaghan.Proto.{
  phase_unspecified, phase_pending, phase_running, phase_pausing, phase_paused, phase_resuming,
  phase_snapshotting, phase_deleting, phase_deleted, phase_failed, Phase, phase_name, Sandbox,
  status_phase,
}
use yaghan.Db.Errors.{not_found, other_error, Outcome, ok, err}
use yaghan.Db.Dynamo.{
  AttributeValue, member_s, member_n, member_b, attribute_exists, equals, one_of, both, PutResult,
  stored, rejected, put_failed, GetResult, got, get_failed, Client, holds, in_values, equals_value,
}
use yaghan.Db.Sandbox.{
  SandboxAttr, sandbox_id, sandbox_version, sandbox_status_phase, SandboxItem, Codec, updated,
  update_digest, to_item, digest_from_attrs, fetch_stored_item, update_retry, update_result, update,
  update_condition, required_prior_phases, phase_values, names_phase, forbids, string_from_attrs,
  string_of, diagnose_update_conflict,
}
use yaghan.Db.Sandbox.Create.{
  to_item-key, Unchanged, Wrote, fetch-row, unread-fetch, Fault, undigested, unencoded, unknown,
  unread,
}

in_values-names_phase :
    (x : Text) (ps : List Phase)
    → in_values (some (member_s x)) (phase_values ps) ≡ names_phase x ps
in_values-names_phase x [] = refl
in_values-names_phase x (p ∷ ps) =
    ap (◌||◌ (text_beq x (phase_name p))) (in_values-names_phase x ps)

in_values-number :
    (n : ℕ) (ps : List Phase) → in_values (some (member_n n)) (phase_values ps) ≡ false
in_values-number n [] = refl
in_values-number n (p ∷ ps) = in_values-number n ps

in_values-bytes :
    (b : Text) (ps : List Phase) → in_values (some (member_b b)) (phase_values ps) ≡ false
in_values-bytes b [] = refl
in_values-bytes b (p ∷ ps) = in_values-bytes b ps

in_values-none : (ps : List Phase) → in_values none (phase_values ps) ≡ false
in_values-none [] = refl
in_values-none (p ∷ ps) = in_values-none ps

-- The phase test of the condition, against the phase test of the diagnosis.
phase_test :
    (o : Option AttributeValue) (ps : List Phase)
    → in_values o (phase_values ps) ≡ true
    → (elim (string_of o) [ none ↦ false | some saved ↦ not (names_phase saved ps) ]) ≡ false
phase_test none ps h = refl
phase_test (some (member_s x)) ps h = ground (arith, in_values-names_phase x ps)
phase_test (some (member_n n)) ps h = ground (arith, in_values-number n ps)
phase_test (some (member_b b)) ps h = refl

version_test :
    (o : Option AttributeValue) (v : ℕ) → equals_value o (member_n v) ≡ true → o ≡ some (member_n v)
version_test none v h = cc
version_test (some (member_s x)) v h = cc
version_test (some (member_n n)) v h = ap (λ k. some (member_n k)) ((nat_beq_iff n v).0 h)
version_test (some (member_b b)) v h = cc

condition-parts :
    (ps : List Phase) (v : ℕ) (target : Phase) (old : SandboxItem)
    → required_prior_phases target ≡ ps
    → holds (update_condition v target) (some old) ≡ true
    → (equals_value (old sandbox_version) (member_n v) ≡ true) × (forbids target old ≡ false)
unfolding update_condition forbids string_from_attrs
condition-parts [] v target old e h =
    let opened : holds (both (attribute_exists sandbox_id) (equals sandbox_version (member_n v)))
          (some old)
        ≡ true =
      sym (rw (e, update_condition) refl) ∙ h in
    (ground arith, rw (e, forbids) refl)
condition-parts (p ∷ ps) v target old e h =
    let opened : holds
          (both (both (attribute_exists sandbox_id) (equals sandbox_version (member_n v)))
            (one_of sandbox_status_phase (phase_values (p ∷ ps))))
          (some old)
        ≡ true =
      sym (rw (e, update_condition) refl) ∙ h in
    (ground arith, rw (e, forbids) (phase_test (old sandbox_status_phase) (p ∷ ps) (ground arith)))

condition-absent :
    (ps : List Phase) (v : ℕ) (target : Phase)
    → required_prior_phases target ≡ ps
    → holds (update_condition v target) none ≡ false
unfolding update_condition
condition-absent [] v target e = rw (e, update_condition) refl
condition-absent (p ∷ ps) v target e = rw (e, update_condition) refl

-- The row's phase is this one.
abbrev pub InPhase : Phase → SandboxItem → Type 0
InPhase p old = old sandbox_status_phase ≡ some (member_s (phase_name p))

-- The phases that a sandbox leaves: RUNNING for PAUSING, PAUSED for RESUMING, one of both for
-- SNAPSHOTTING, and any for the others.
abbrev pub PriorPhase : Phase → SandboxItem → Type 0
PriorPhase phase_pausing old = InPhase phase_running old
PriorPhase phase_resuming old = InPhase phase_paused old
PriorPhase phase_snapshotting old = InPhase phase_running old ⊎ InPhase phase_paused old
PriorPhase phase_unspecified old = Unit
PriorPhase phase_pending old = Unit
PriorPhase phase_running old = Unit
PriorPhase phase_paused old = Unit
PriorPhase phase_deleting old = Unit
PriorPhase phase_deleted old = Unit
PriorPhase phase_failed old = Unit

condition-phases :
    (p : Phase) (ps : List Phase) (v : ℕ) (target : Phase) (old : SandboxItem)
    → required_prior_phases target ≡ p ∷ ps
    → holds (update_condition v target) (some old) ≡ true
    → in_values (old sandbox_status_phase) (phase_values (p ∷ ps)) ≡ true
unfolding update_condition
condition-phases p ps v target old e h =
    let opened : holds
          (both (both (attribute_exists sandbox_id) (equals sandbox_version (member_n v)))
            (one_of sandbox_status_phase (phase_values (p ∷ ps))))
          (some old)
        ≡ true =
      sym (rw (e, update_condition) refl) ∙ h in
    ground arith

in_values-first :
    (o : Option AttributeValue) (p : Phase) (ps : List Phase)
    → in_values o (phase_values (p ∷ ps)) ≡ true
    → (o ≡ some (member_s (phase_name p))) ⊎ (in_values o (phase_values ps) ≡ true)
in_values-first none p ps h = inr h
in_values-first (some (member_s x)) p ps h = elim (Bool-cases (text_beq x (phase_name p))) [
  | inl same ↦ inl (ap (λ t. some (member_s t)) ((text_beq_iff x (phase_name p)).0 same))
  | inr other ↦ inr (ground (arith, other))
]
in_values-first (some (member_n n)) p ps h = inr h
in_values-first (some (member_b b)) p ps h = inr h

in_values-nothing : (o : Option AttributeValue) → in_values o (phase_values []) ≡ true → ⊥
in_values-nothing none h = cc
in_values-nothing (some a) h = cc

in_values-one :
    (o : Option AttributeValue) (p : Phase)
    → in_values o (phase_values (p ∷ [])) ≡ true
    → o ≡ some (member_s (phase_name p))
in_values-one o p h = elim (in_values-first o p [] h) [
  | inl first ↦ first
  | inr later ↦ absurd (in_values-nothing o later)
]

condition-PriorPhase :
    (v : ℕ) (target : Phase) (old : SandboxItem)
    → holds (update_condition v target) (some old) ≡ true
    → PriorPhase target old
unfolding required_prior_phases
condition-PriorPhase v phase_pausing old h =
    in_values-one (old sandbox_status_phase) phase_running
      (condition-phases phase_running [] v phase_pausing old refl h)
condition-PriorPhase v phase_resuming old h =
    in_values-one (old sandbox_status_phase) phase_paused
      (condition-phases phase_paused [] v phase_resuming old refl h)
condition-PriorPhase v phase_snapshotting old h =
    elim (in_values-first (old sandbox_status_phase) phase_running (phase_paused ∷ [])
      (condition-phases phase_running (phase_paused ∷ []) v phase_snapshotting old refl h)) [
        | inl first ↦ inl first
        | inr later ↦ inr (in_values-one (old sandbox_status_phase) phase_paused later)
      ]
condition-PriorPhase v phase_unspecified old h = tt
condition-PriorPhase v phase_pending old h = tt
condition-PriorPhase v phase_running old h = tt
condition-PriorPhase v phase_paused old h = tt
condition-PriorPhase v phase_deleting old h = tt
condition-PriorPhase v phase_deleted old h = tt
condition-PriorPhase v phase_failed old h = tt

-- A row on which the condition of Update holds is there, at the version that was read and in a phase
-- that allows the target.
pub update_condition-holds :
    (v : ℕ) (target : Phase) (o : Option SandboxItem)
    → holds (update_condition v target) o ≡ true
    → (old : SandboxItem) × (o ≡ some old)
      × (old sandbox_version ≡ some (member_n v))
      × (forbids target old ≡ false)
      × PriorPhase target old
update_condition-holds v target none h =
    let no_row = condition-absent (required_prior_phases target) v target refl in cc
update_condition-holds v target (some old) h =
    let (version, phase) = condition-parts (required_prior_phases target) v target old refl h in
    (
      old,
      refl,
      version_test (old sandbox_version) v version,
      phase,
      condition-PriorPhase v target old h,
    )

module _ (c : Codec) (db : Client SandboxAttr sandbox_id) where
  open db use {
    Table, row, put_item, get_item, put_stored, put_rejected, put_unknown, get_got, row_key,
  }

  -- Every way that Update can end: the row is replaced, or it stays as it is, and then the call
  -- succeeds if the row has the same content, and fails with the reason otherwise; or the row is
  -- missing; or one of the faults of a write.
  pub data UpdateOutcome (t : Table) (now : ℕ) (sb : Sandbox) (r : Table × Outcome Sandbox)
      : Type 0 where
    replaced :
        (d : Text) (item old : SandboxItem)
        → update_digest c now sb ≡ some d
        → to_item c (updated now sb) d ≡ some item
        → row t sb.metadata.id ≡ some old
        → old sandbox_version ≡ some (member_n sb.metadata.version)
        → forbids (status_phase sb) old ≡ false
        → PriorPhase (status_phase sb) old
        → Wrote c db t r.0 sb.metadata.id item
        → r.1 ≡ ok (updated now sb)
        → UpdateOutcome t now sb r
    repeated :
        (d : Text) (old : SandboxItem)
        → update_digest c now sb ≡ some d
        → row t sb.metadata.id ≡ some old
        → digest_from_attrs (some old) ≡ some d
        → holds (update_condition sb.metadata.version (status_phase sb)) (some old) ≡ false
        → Unchanged c db t r.0
        → r.1 ≡ ok (updated now sb)
        → UpdateOutcome t now sb r
    missing :
        row t sb.metadata.id ≡ none
        → Unchanged c db t r.0
        → r.1 ≡ err not_found
        → UpdateOutcome t now sb r
    conflicted :
        (d : Text) (old : SandboxItem)
        → update_digest c now sb ≡ some d
        → row t sb.metadata.id ≡ some old
        → digest_from_attrs (some old) ≢ some d
        → holds (update_condition sb.metadata.version (status_phase sb)) (some old) ≡ false
        → Unchanged c db t r.0
        → r.1 ≡ err (diagnose_update_conflict (status_phase sb) old)
        → UpdateOutcome t now sb r
    broken :
        Fault c db t r.0
          (updated now sb)
          (update_digest c now sb)
          (update_condition sb.metadata.version (status_phase sb))
        → r.1 ≡ err other_error
        → UpdateOutcome t now sb r

  module _ (t : Table) (now : ℕ) (sb : Sandbox) (d : Text)
      (known : update_digest c now sb ≡ some d) where
    retry-UpdateOutcome :
        (u : Table) (g : GetResult SandboxAttr)
        → Unchanged c db t u
        → holds (update_condition sb.metadata.version (status_phase sb)) (row t sb.metadata.id)
          ≡ false
        → (g ≡ get_failed → get_item u sb.metadata.id ≡ get_failed)
        → ((o : Option SandboxItem) → g ≡ got o → o ≡ row t sb.metadata.id)
        → UpdateOutcome t now sb (u, update_retry c db (updated now sb) d g)
    unfolding update_retry
    retry-UpdateOutcome u get_failed same not_held lost from = broken (unread (lost refl) same) refl
    retry-UpdateOutcome u (got none) same not_held lost from =
        missing (sym (from none refl)) same refl
    retry-UpdateOutcome u (got (some old)) same not_held lost from =
        let there = sym (from (some old) refl) in
        let refused = rw there at not_held in
        elim (Option-cases (digest_from_attrs (some old))) [
          | inl e ↦ conflicted d old known there (λ q. cc) refused same (rw (e, update_retry) refl)
          | inr (x, e) ↦ elim (Bool-cases (text_beq d x)) [
            | inl eq ↦
                repeated d old known there (e ∙ ap some (sym ((text_beq_iff d x).0 eq))) refused
                  same (rw (e, update_retry) (rw eq refl))
            | inr ne ↦
                conflicted d old known there
                  (λ q. cc ((text_beq_iff d x).1 (some-injective d x (sym q ∙ e)))) refused same
                  (rw (e, update_retry) (rw ne refl))
          ]
        ]

    put-UpdateOutcome :
        (item : SandboxItem) (r : Table × PutResult SandboxAttr)
        → to_item c (updated now sb) d ≡ some item
        → put_item t item (update_condition sb.metadata.version (status_phase sb)) ≡ r
        → UpdateOutcome t now sb (update_result c db (updated now sb) d r)
    unfolding update_result
    put-UpdateOutcome item (u, stored) made e =
        let key = to_item-key c (updated now sb) d item made in
        let cond = update_condition sb.metadata.version (status_phase sb) in
        let law = put_stored t item cond sb.metadata.id key (rw e refl) in
        let (old, there, version, phase, prior) =
          update_condition-holds sb.metadata.version (status_phase sb) (row t sb.metadata.id)
            law.0 in
        replaced d item old known made there version phase prior (rw e at law.1) refl
    put-UpdateOutcome item (u, put_failed) made e =
        let key = to_item-key c (updated now sb) d item made in
        let cond = update_condition sb.metadata.version (status_phase sb) in
        let law = put_unknown t item cond sb.metadata.id key (rw e refl) in
        broken (unknown d item known made e (rw e at law)) refl
    put-UpdateOutcome item (u, rejected old) made e =
        let key = to_item-key c (updated now sb) d item made in
        let cond = update_condition sb.metadata.version (status_phase sb) in
        let law = put_rejected t item cond sb.metadata.id old key (rw e refl) in
        let same : Unchanged c db t u = rw e at law.1 in
        retry-UpdateOutcome u (fetch_stored_item c db u old sb.metadata.id) same law.0
          (unread-fetch c db u old sb.metadata.id)
          (λ o g. fetch-row c db t u old sb.metadata.id o same law.2 g)

  -- Update ends in one of five ways, whatever the table holds: it replaces the row, which was at the
  -- version read and in a phase that the new one may follow; it reports success and changes nothing,
  -- since the condition fails but the row has the same content; it reports that the row is missing;
  -- it reports the conflict, the content being different; or an encoding or a call of the database
  -- fails, and then it reports so and the row is as before or replaced under the same condition.
  pub update-UpdateOutcome :
      (t : Table) (now : ℕ) (sb : Sandbox) → UpdateOutcome t now sb (update c db now sb t)
  unfolding update
  update-UpdateOutcome t now sb = elim (Option-cases (update_digest c now sb)) [
    | inl e ↦ rw (e, update) (broken (undigested e (λ j. refl)) refl)
    | inr (d, e) ↦ elim (Option-cases (to_item c (updated now sb) d)) [
      | inl f ↦ rw (e, update) (rw f (broken (unencoded d e f (λ j. refl)) refl))
      | inr (item, f) ↦
          rw (e, update)
            (rw f (
              put-UpdateOutcome t now sb d e item
                (put_item t item (update_condition sb.metadata.version (status_phase sb))) f refl))
    ]
  ]
