-- ===== src/Db/Sandbox.antt =====
-- api-server/pkg/db/sandbox/dynamodb/dynamodb.go: rows of sandboxes, written under conditions. Errors
-- keep their sentinel and lose their text. The encodings are the interface Codec.
pub mod Index
pub mod Create
pub mod Update
pub mod Versions
use yaghan.Base.{
  ℕ, ◌+◌, ◌≡◌, Bool, true, false, ◌&&◌, ◌||◌, not, List, [], ◌∷◌, ◌++◌, map, Option, none, some,
  if◌then◌else◌, ◌==◌,
}
use yaghan.Base.Text.{Text, codes, text_beq, text_eq}
use yaghan.Base.Decimal.{decimal}
use yaghan.Proto.{
  Phase, phase_unspecified, phase_pending, phase_running, phase_pausing, phase_paused,
  phase_resuming, phase_snapshotting, phase_deleting, phase_deleted, phase_failed, phase_name,
  Sandbox, SandboxMeta, status_phase, node_id,
}
use yaghan.Db.Errors.{
  Error, already_exists, not_found, version_conflict, invalid_phase_transition, other_error,
  Outcome, ok, err,
}
use yaghan.Db.Dynamo.{
  AttributeValue, member_s, member_n, member_b, Item, Condition, attribute_exists,
  attribute_not_exists, equals, one_of, both, PutResult, stored, rejected, put_failed, GetResult,
  got, get_failed, Client,
}

pub data SandboxAttr : Type 0 where
  sandbox_id sandbox_namespace sandbox_status_phase node_ref_id gsi_lmt_sk : SandboxAttr
  gsi_namespace_phase_hk gsi_namespace_node_hk gsi_node_phase_hk : SandboxAttr
  gsi_namespace_node_phase_hk sandbox_version sandbox_pb sandbox_content_digest : SandboxAttr

abbrev pub SandboxItem : Type 0
SandboxItem = Item SandboxAttr

abbrev pub initial_version : ℕ
initial_version = 1

-- Package proto, crypto/sha256 and the time format; `none` is an error.
pub record Codec : Type 0 where
  pub marshal : Sandbox → Option Text
  pub unmarshal : Text → Option Sandbox
  pub marshal_deterministic : Sandbox → Option Text
  pub sha256 : Text → Text
  pub rfc3339_nano : Option ℕ → Text
  pub unmarshal-marshal : (sb : Sandbox) (b : Text) → marshal sb ≡ some b → unmarshal b ≡ some sb

-- Writes of the fields that the database owns.
abbrev pub with_version : ℕ → Sandbox → Sandbox
with_version v sb = let m = sb.metadata in record sb { metadata = record m { version = v } }

abbrev pub with_created_at : Option ℕ → Sandbox → Sandbox
with_created_at t sb = let m = sb.metadata in record sb { metadata = record m { created_at = t } }

abbrev pub with_last_modified_at : Option ℕ → Sandbox → Sandbox
with_last_modified_at t sb =
    let m = sb.metadata in record sb { metadata = record m { last_modified_at = t } }

-- The copy of the sandbox that contentDigest encodes.
unfoldable pub canonical : Sandbox → Sandbox
canonical sb =
    let m = sb.metadata in
    record sb {
      metadata = record m { created_at = none; last_modified_at = none; version = 0 };
      node = none;
    }

unfoldable pub required_prior_phases : Phase → List Phase
required_prior_phases phase_pausing = phase_running ∷ []
required_prior_phases phase_resuming = phase_paused ∷ []
required_prior_phases phase_snapshotting = phase_running ∷ phase_paused ∷ []
required_prior_phases _ = []

unfoldable pub gsi_namespace_phase_key : Sandbox → Text
gsi_namespace_phase_key sb = sb.metadata.namespace ++ b'#' ∷ phase_name (status_phase sb)

unfoldable pub gsi_namespace_node_key : Sandbox → Text
gsi_namespace_node_key sb = sb.metadata.namespace ++ b'#' ∷ node_id sb

unfoldable pub gsi_node_phase_key : Sandbox → Text
gsi_node_phase_key sb = node_id sb ++ b'#' ∷ phase_name (status_phase sb)

unfoldable pub gsi_namespace_node_phase_key : Sandbox → Text
gsi_namespace_node_phase_key sb =
    sb.metadata.namespace ++ b'#' ∷ (node_id sb ++ b'#' ∷ phase_name (status_phase sb))

-- The attributes that a row has only if the sandbox has a node.
abbrev pub when_node : Sandbox → Text → Option AttributeValue
when_node sb v = if text_beq (node_id sb) [] then none else some (member_s v)

-- The map of toItem, given the encoded sandbox.
unfoldable pub item_of : Codec → Sandbox → Text → Text → SandboxItem
item_of c sb digest pb sandbox_id = some (member_s sb.metadata.id)
item_of c sb digest pb sandbox_namespace = some (member_s sb.metadata.namespace)
item_of c sb digest pb sandbox_status_phase = some (member_s (phase_name (status_phase sb)))
item_of c sb digest pb node_ref_id = when_node sb (node_id sb)
item_of c sb digest pb gsi_lmt_sk =
    some (member_s (c.rfc3339_nano sb.metadata.last_modified_at ++ b'#' ∷ sb.metadata.id))
item_of c sb digest pb gsi_namespace_phase_hk = some (member_s (gsi_namespace_phase_key sb))
item_of c sb digest pb gsi_namespace_node_hk = when_node sb (gsi_namespace_node_key sb)
item_of c sb digest pb gsi_node_phase_hk = when_node sb (gsi_node_phase_key sb)
item_of c sb digest pb gsi_namespace_node_phase_hk = when_node sb (gsi_namespace_node_phase_key sb)
item_of c sb digest pb sandbox_version = some (member_n sb.metadata.version)
item_of c sb digest pb sandbox_pb = some (member_b pb)
item_of c sb digest pb sandbox_content_digest = some (member_b digest)

unfoldable pub to_item : Codec → Sandbox → Text → Option SandboxItem
to_item c sb digest = elim (c.marshal sb) [ none ↦ none | some pb ↦ some (item_of c sb digest pb) ]

unfoldable pub content_digest : Codec → Sandbox → Option Text
content_digest c sb = elim (c.marshal_deterministic (canonical sb)) [
  | none ↦ none
  | some b ↦ some (c.sha256 b)
]

abbrev bytes_of : Option AttributeValue → Option Text
bytes_of (some (member_b b)) = some b
bytes_of _ = none

abbrev string_of : Option AttributeValue → Option Text
string_of (some (member_s s)) = some s
string_of (some (member_n n)) = some (decimal n)
string_of _ = none

unfoldable pub digest_from_attrs : Option SandboxItem → Option Text
digest_from_attrs none = none
digest_from_attrs (some item) = bytes_of (item sandbox_content_digest)

unfoldable pub string_from_attrs : SandboxItem → SandboxAttr → Option Text
string_from_attrs item k = string_of (item k)

unfoldable pub sandbox_from_attrs : Codec → SandboxItem → Outcome Sandbox
sandbox_from_attrs c item = elim (bytes_of (item sandbox_pb)) [
  | none ↦ err other_error
  | some b ↦ elim (c.unmarshal b) [ none ↦ err other_error | some sb ↦ ok sb ]
]

abbrev pub phase_values : List Phase → List AttributeValue
phase_values [] = []
phase_values (p ∷ ps) = member_s (phase_name p) ∷ phase_values ps

-- The condition of Update: the row exists at the version read and, where the target phase asks for
-- it, in one of the prior phases.
unfoldable pub update_condition : ℕ → Phase → Condition SandboxAttr
update_condition expected target =
    let at_version =
      both (attribute_exists sandbox_id) (equals sandbox_version (member_n expected)) in
    elim (required_prior_phases target) [
      | [] ↦ at_version
      | p ∷ ps ↦ both at_version (one_of sandbox_status_phase (phase_values (p ∷ ps)))
    ]

abbrev pub names_phase : Text → List Phase → Bool
names_phase saved [] = false
names_phase saved (p ∷ ps) = text_beq saved (phase_name p) || names_phase saved ps

-- The first half of diagnoseUpdateConflict: whether the row is in a phase that forbids the target.
unfoldable pub forbids : Phase → SandboxItem → Bool
forbids target item = elim (required_prior_phases target) [
  | [] ↦ false
  | p ∷ ps ↦ elim (string_from_attrs item sandbox_status_phase) [
    | none ↦ false
    | some saved ↦ not (names_phase saved (p ∷ ps))
  ]
]

unfoldable pub diagnose_update_conflict : Phase → SandboxItem → Error
diagnose_update_conflict target item =
    if forbids target item then invalid_phase_transition else version_conflict

-- The sandbox as Create persists it.
abbrev pub created : ℕ → Sandbox → Sandbox
created now sb =
    with_version initial_version (with_last_modified_at (some now) (with_created_at (some now) sb))

-- The sandbox as Update persists it.
abbrev pub updated : ℕ → Sandbox → Sandbox
updated now sb = with_version (sb.metadata.version + 1) (with_last_modified_at (some now) sb)

-- The digest that Create computes, after it has set the times.
unfoldable pub create_digest : Codec → ℕ → Sandbox → Option Text
create_digest c now sb =
    content_digest c (with_last_modified_at (some now) (with_created_at (some now) sb))

-- The digest that Update computes, after it has set the time of the change.
unfoldable pub update_digest : Codec → ℕ → Sandbox → Option Text
update_digest c now sb = content_digest c (with_last_modified_at (some now) sb)

module _ (c : Codec) (db : Client SandboxAttr sandbox_id) where
  open db use {Table, put_item, get_item}

  unfoldable pub fetch_stored_item : Table → Option SandboxItem → Text → GetResult SandboxAttr
  fetch_stored_item t none id = get_item t id
  fetch_stored_item t (some item) id = got (some item)

  -- Create after a failed condition, given the row that was read.
  unfoldable pub create_retry : Sandbox → Text → GetResult SandboxAttr → Outcome Sandbox
  create_retry sb digest get_failed = err other_error
  create_retry sb digest (got o) = elim (digest_from_attrs o) [
    | none ↦ err other_error
    | some d ↦ if text_beq digest d then ok sb else err already_exists
  ]

  unfoldable pub create_result :
      Sandbox → Text → Table × PutResult SandboxAttr → Table × Outcome Sandbox
  create_result sb digest (t, stored) = (t, ok sb)
  create_result sb digest (t, put_failed) = (t, err other_error)
  create_result sb digest (t, rejected old) =
      (t, create_retry sb digest (fetch_stored_item t old sb.metadata.id))

  -- `ok` carries the caller's sandbox as it stands after the call.
  unfoldable pub create : ℕ → Sandbox → Table → Table × Outcome Sandbox
  create now sb t = elim (create_digest c now sb) [
    | none ↦ (t, err other_error)
    | some digest ↦ elim (to_item c (created now sb) digest) [
      | none ↦ (t, err other_error)
      | some item ↦
          create_result (created now sb) digest (put_item t item (attribute_not_exists sandbox_id))
    ]
  ]

  unfoldable pub get : Text → Table → Outcome Sandbox
  get id t = elim (get_item t id) [
    | get_failed ↦ err other_error
    | got o ↦ elim o [ none ↦ err not_found | some item ↦ sandbox_from_attrs c item ]
  ]

  unfoldable pub update_retry : Sandbox → Text → GetResult SandboxAttr → Outcome Sandbox
  update_retry sb digest get_failed = err other_error
  update_retry sb digest (got none) = err not_found
  update_retry sb digest (got (some item)) =
      let conflict = diagnose_update_conflict (status_phase sb) item in
      elim (digest_from_attrs (some item)) [
        | none ↦ err conflict
        | some d ↦ if text_beq digest d then ok sb else err conflict
      ]

  unfoldable pub update_result :
      Sandbox → Text → Table × PutResult SandboxAttr → Table × Outcome Sandbox
  update_result sb digest (t, stored) = (t, ok sb)
  update_result sb digest (t, put_failed) = (t, err other_error)
  update_result sb digest (t, rejected old) =
      (t, update_retry sb digest (fetch_stored_item t old sb.metadata.id))

  unfoldable pub update : ℕ → Sandbox → Table → Table × Outcome Sandbox
  update now sb t = elim (update_digest c now sb) [
    | none ↦ (t, err other_error)
    | some digest ↦ elim (to_item c (updated now sb) digest) [
      | none ↦ (t, err other_error)
      | some item ↦
          update_result (updated now sb) digest
            (put_item t item (update_condition sb.metadata.version (status_phase sb)))
    ]
  ]
