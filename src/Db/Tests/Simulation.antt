-- ===== src/Db/Tests/Simulation.antt =====
-- A table held in memory and an encoding of small sandboxes, which the tests of the persistence layer
-- run on.
use mathlib.Core.Option.{some-injective}
use yaghan.Base.{
  ℕ, zero, suc, ◌≡◌, refl, sym, ap, ◌∙◌, inl, inr, List, [], ◌∷◌, Option, none, some, Option-cases,
}
use yaghan.Base.Text.{Text, text_eq}
use yaghan.Proto.{
  Phase, phase_unspecified, phase_pending, phase_running, phase_pausing, phase_paused,
  phase_resuming, phase_snapshotting, phase_deleting, phase_deleted, phase_failed, SandboxSource,
  EgressPolicy, Resources, Intent, SnapshotOutput, Sandbox,
}
use yaghan.Db.Dynamo.{Client}
use yaghan.Db.Memory.{memory_of}
use yaghan.Db.Sandbox.{SandboxAttr, sandbox_id, Codec}

abbrev pub memory : Client SandboxAttr sandbox_id
memory = memory_of sandbox_id

abbrev pub empty_table : Client.Table memory
empty_table = λ j. none

abbrev number_of : Phase → ℕ
number_of phase_unspecified = 0
number_of phase_pending = 1
number_of phase_running = 2
number_of phase_pausing = 3
number_of phase_paused = 4
number_of phase_resuming = 5
number_of phase_snapshotting = 6
number_of phase_deleting = 7
number_of phase_deleted = 8
number_of phase_failed = 9

abbrev phases : List Phase
phases =
    phase_unspecified ∷ phase_pending ∷ phase_running ∷ phase_pausing ∷ phase_paused
    ∷ phase_resuming ∷ phase_snapshotting ∷ phase_deleting ∷ phase_deleted ∷ phase_failed ∷ []

abbrev nth : List Phase → ℕ → Phase
nth [] n = phase_unspecified
nth (p ∷ ps) zero = p
nth (p ∷ ps) (suc n) = nth ps n

abbrev phase_of : ℕ → Phase
phase_of n = nth phases n

phase_of-number_of : (p : Phase) → phase_of (number_of p) ≡ p
phase_of-number_of phase_unspecified = refl
phase_of-number_of phase_pending = refl
phase_of-number_of phase_running = refl
phase_of-number_of phase_pausing = refl
phase_of-number_of phase_paused = refl
phase_of-number_of phase_resuming = refl
phase_of-number_of phase_snapshotting = refl
phase_of-number_of phase_deleting = refl
phase_of-number_of phase_deleted = refl
phase_of-number_of phase_failed = refl

abbrev number_of_time : Option ℕ → ℕ
number_of_time none = 0
number_of_time (some n) = suc n

abbrev time_of : ℕ → Option ℕ
time_of zero = none
time_of (suc n) = some n

time_of-number_of_time : (o : Option ℕ) → time_of (number_of_time o) ≡ o
time_of-number_of_time none = refl
time_of-number_of_time (some n) = refl

-- A sandbox of the shape that the encoding covers.
abbrev pub small : ℕ → ℕ → ℕ → Option ℕ → Option ℕ → Option Text → Phase → Sandbox
small x y v created changed node p = record {
  metadata = record {
    id = x ∷ [];
    namespace = y ∷ [];
    source = none;
    version = v;
    created_at = created;
    last_modified_at = changed;
    labels = [];
  };
  egress_policy = none;
  resources = none;
  node = node;
  intent = none;
  last_snapshot = none;
  status = some (record { phase = p; message = [] });
}

abbrev node_of : Text → Option Text
node_of [] = none
node_of (z ∷ zs) = some zs

abbrev number_of_node : Option Text → Text
number_of_node none = []
number_of_node (some z) = 1 ∷ z

node_of-number_of_node : (o : Option Text) → node_of (number_of_node o) ≡ o
node_of-number_of_node none = refl
node_of-number_of_node (some z) = refl

-- An intent without a snapshot, by its phase.
abbrev target_of : Option Intent → Option (Option Phase)
target_of none = some none
target_of (some i) = elim i.start_snapshot [ none ↦ some (some i.phase) | some s ↦ none ]

abbrev intent_of : Option Phase → Option Intent
intent_of none = none
intent_of (some p) = some (record { phase = p; start_snapshot = none })

target_of-intent_of :
    (o : Option Intent) (t : Option Phase) → target_of o ≡ some t → intent_of t ≡ o
target_of-intent_of none t e = ap intent_of (sym (some-injective _ _ e))
target_of-intent_of (some i) t e = elim (Option-cases i.start_snapshot) [
  | inl f ↦
      let known : some (some i.phase) ≡ some t = rw f at e in
      ap intent_of (sym (some-injective _ _ known))
      ∙ ap (λ s. some (record { phase = i.phase; start_snapshot = s })) (sym f)
  | inr (s, f) ↦ let bad : none ≡ some t = rw f at e in cc
]

abbrev number_of_target : Option Phase → ℕ
number_of_target none = 0
number_of_target (some p) = suc (number_of p)

abbrev target : ℕ → Option Phase
target zero = none
target (suc n) = some (phase_of n)

target-number_of_target : (t : Option Phase) → target (number_of_target t) ≡ t
target-number_of_target none = refl
target-number_of_target (some p) = ap some (phase_of-number_of p)

abbrev encode :
    Text
    → Text
    → Option SandboxSource
    → ℕ
    → Option ℕ
    → Option ℕ
    → List (Text × Text)
    → Option EgressPolicy
    → Option Resources
    → Option Text
    → Option Phase
    → Option SnapshotOutput
    → Phase
    → Text
    → Option Text
encode (x ∷ []) (y ∷ []) none v created changed [] none none node t none p [] = some (
    x
    ∷ y
    ∷ v
    ∷ number_of_time created
    ∷ number_of_time changed
    ∷ number_of p
    ∷ number_of_target t
    ∷ number_of_node node)
encode _ _ _ _ _ _ _ _ _ _ _ _ _ _ = none

abbrev encode_target : Sandbox → Phase → Text → Option (Option Phase) → Option Text
encode_target sb p message none = none
encode_target sb p message (some t) =
    let m = sb.metadata in
    encode m.id m.namespace m.source m.version m.created_at m.last_modified_at m.labels
      sb.egress_policy sb.resources sb.node t sb.last_snapshot p message

abbrev encode_sandbox : Sandbox → Option Text
encode_sandbox sb = elim sb.status [
  | none ↦ none
  | some s ↦ encode_target sb s.phase s.message (target_of sb.intent)
]

abbrev decode_sandbox : Text → Option Sandbox
decode_sandbox (x ∷ y ∷ v ∷ created ∷ changed ∷ p ∷ t ∷ node) =
    let sb = small x y v (time_of created) (time_of changed) (node_of node) (phase_of p) in
    some (record sb { intent = intent_of (target t) })
decode_sandbox _ = none

decode-encode :
    (id namespace : Text) (source : Option SandboxSource) (v : ℕ) (created changed : Option ℕ)
    (labels : List (Text × Text)) (egress : Option EgressPolicy) (resources : Option Resources)
    (node : Option Text) (t : Option Phase) (last : Option SnapshotOutput) (p : Phase)
    (message : Text) (b : Text)
    → encode id namespace source v created changed labels egress resources node t last p message
      ≡ some b
    → decode_sandbox b
      ≡ some (record {
        metadata = record {
          id = id;
          namespace = namespace;
          source = source;
          version = v;
          created_at = created;
          last_modified_at = changed;
          labels = labels;
        };
        egress_policy = egress;
        resources = resources;
        node = node;
        intent = intent_of t;
        last_snapshot = last;
        status = some (record { phase = p; message = message });
      })
decode-encode (x ∷ []) (y ∷ []) none v created changed [] none none node t none p [] b e =
    rw (sym (some-injective _ _ e)) (
      cc (
        phase_of-number_of p,
        time_of-number_of_time created,
        time_of-number_of_time changed,
        node_of-number_of_node node,
        target-number_of_target t,
      ))
decode-encode _ _ _ _ _ _ _ _ _ _ _ _ _ _ b e = cc

pub decode-encode_sandbox :
    (sb : Sandbox) (b : Text) → encode_sandbox sb ≡ some b → decode_sandbox b ≡ some sb
decode-encode_sandbox sb b e = elim (Option-cases sb.status) [
  | inl f ↦ let bad : none ≡ some b = rw f at e in cc
  | inr (s, f) ↦
      let m = sb.metadata in
      elim (Option-cases (target_of sb.intent)) [
        | inl g ↦
            let bad : none ≡ some b = sym (ap (encode_target sb s.phase s.message) g) ∙ rw f at e in
            cc
        | inr (t, g) ↦
            decode-encode m.id m.namespace m.source m.version m.created_at m.last_modified_at
              m.labels sb.egress_policy sb.resources sb.node t sb.last_snapshot s.phase s.message b
              (sym (ap (encode_target sb s.phase s.message) g) ∙ rw f at e)
            ∙ ap (λ x. some (record sb { status = some s; intent = x }))
                (target_of-intent_of sb.intent t g)
            ∙ ap (λ x. some (record sb { status = x })) (sym f)
      ]
]

abbrev pub codec : Codec
codec = record {
  marshal = encode_sandbox;
  unmarshal = decode_sandbox;
  marshal_deterministic = encode_sandbox;
  sha256 = λ b. b;
  rfc3339_nano = λ t. [];
  unmarshal-marshal = decode-encode_sandbox;
}
