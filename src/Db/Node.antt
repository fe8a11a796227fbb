-- ===== src/Db/Node.antt =====
-- api-server/pkg/db/node/dynamodb/dynamodb.go: rows of nodes, written under conditions. Errors keep
-- their sentinel and lose their text. The encodings are the interface NodeCodec.
pub mod Register
pub mod Refinement
mod Tests
use yaghan.Base.{
  ℕ, ◌+◌, ◌≡◌, Bool, true, false, List, [], ◌∷◌, ◌++◌, Option, none, some, if◌then◌else◌, nat_beq,
}
use yaghan.Base.Text.{Text, codes, text_beq}
use yaghan.Db.Errors.{
  Error, already_exists, not_found, version_conflict, other_error, Outcome, ok, err,
}
use yaghan.Db.Dynamo.{
  AttributeValue, member_s, member_n, member_b, Item, Condition, attribute_exists,
  attribute_not_exists, equals, both, PutResult, stored, rejected, put_failed, GetResult, got,
  get_failed, Client,
}

-- The messages of apis/proto/yaghan/control_plane/v1alpha1/cluster.proto.
pub record NodeMeta : Type 0 where
  pub id : Text
  pub version : ℕ
  pub created_at : Option ℕ
  pub last_modified_at : Option ℕ

pub record NodeResources : Type 0 where
  pub cpu_capacity_millicores : ℕ
  pub memory_capacity_bytes : ℕ
  pub disk_capacity_bytes : ℕ

pub record NodeMetrics : Type 0 where
  pub sampled_at : Option ℕ
  pub active_sandbox_count : ℕ
  pub cpu_used_millicores : ℕ
  pub memory_used_bytes : ℕ
  pub disk_used_bytes : ℕ

pub data NodePhase : Type 0 where
  node_unspecified node_healthy node_unhealthy node_lost node_deleted node_unknown : NodePhase

pub record NodeStatus : Type 0 where
  pub phase : NodePhase
  pub message : Text

pub record Ec2InstanceMeta : Type 0 where
  pub instance_id : Text
  pub instance_type : Text
  pub image_id : Text
  pub account_id : Text
  pub region : Text
  pub availability_zone : Text

pub record Node : Type 0 where
  pub metadata : NodeMeta
  pub resources : Option NodeResources
  pub metrics : Option NodeMetrics
  pub status : Option NodeStatus
  pub provider_metadata : Option Ec2InstanceMeta

-- The generated String() of the phase.
unfoldable pub node_phase_name : NodePhase → Text
node_phase_name node_unspecified = codes "PHASE_UNSPECIFIED"
node_phase_name node_healthy = codes "PHASE_HEALTHY"
node_phase_name node_unhealthy = codes "PHASE_UNHEALTHY"
node_phase_name node_lost = codes "PHASE_LOST"
node_phase_name node_deleted = codes "PHASE_DELETED"
node_phase_name node_unknown = codes "PHASE_UNKNOWN"

abbrev node_phase : Node → NodePhase
node_phase n = elim n.status [ none ↦ node_unspecified | some s ↦ s.phase ]

pub data NodeAttr : Type 0 where
  node_id node_status_phase gsi_const_hk gsi_lmt_sk node_version node_pb : NodeAttr
  node_content_digest : NodeAttr

abbrev pub NodeItem : Type 0
NodeItem = Item NodeAttr

abbrev all_nodes_partition : Text
all_nodes_partition = codes "node"

abbrev pub initial_version : ℕ
initial_version = 1

-- Package proto, crypto/sha256 and the time format; `none` is an error.
pub record NodeCodec : Type 0 where
  pub marshal : Node → Option Text
  pub unmarshal : Text → Option Node
  pub marshal_deterministic : Node → Option Text
  pub sha256 : Text → Text
  pub rfc3339_nano : Option ℕ → Text

-- The times that Put sets.
abbrev pub stamped : ℕ → Node → Node
stamped now n =
    let m = n.metadata in
    record n {
      metadata = record m {
        created_at = if nat_beq m.version 0 then some now else m.created_at;
        last_modified_at = some now;
      };
    }

-- The node as Put persists it.
abbrev pub persisted : ℕ → Node → Node
persisted now n =
    let m = (stamped now n).metadata in
    record (stamped now n) {
      metadata = record m {
        version = if nat_beq n.metadata.version 0 then initial_version else n.metadata.version + 1;
      };
    }

-- The copy of the node that contentDigest encodes.
unfoldable pub canonical : Node → Node
canonical n =
    let m = n.metadata in
    record n { metadata = record m { created_at = none; last_modified_at = none; version = 0 } }

unfoldable pub content_digest : NodeCodec → Node → Option Text
content_digest c n = elim (c.marshal_deterministic (canonical n)) [
  | none ↦ none
  | some b ↦ some (c.sha256 b)
]

unfoldable pub lmt_sort_key : NodeCodec → Node → Text
lmt_sort_key c n = c.rfc3339_nano n.metadata.last_modified_at ++ b'#' ∷ n.metadata.id

-- The map of toItem, given the encoded node.
unfoldable pub item_of : NodeCodec → Node → Text → Text → NodeItem
item_of c n digest pb node_id = some (member_s n.metadata.id)
item_of c n digest pb node_status_phase = some (member_s (node_phase_name (node_phase n)))
item_of c n digest pb gsi_const_hk = some (member_s all_nodes_partition)
item_of c n digest pb gsi_lmt_sk = some (member_s (lmt_sort_key c n))
item_of c n digest pb node_version = some (member_n n.metadata.version)
item_of c n digest pb node_pb = some (member_b pb)
item_of c n digest pb node_content_digest = some (member_b digest)

unfoldable pub to_item : NodeCodec → Node → Text → Option NodeItem
to_item c n digest = elim (c.marshal n) [ none ↦ none | some pb ↦ some (item_of c n digest pb) ]

abbrev bytes_of : Option AttributeValue → Option Text
bytes_of (some (member_b b)) = some b
bytes_of _ = none

unfoldable pub digest_from_attrs : Option NodeItem → Option Text
digest_from_attrs none = none
digest_from_attrs (some item) = bytes_of (item node_content_digest)

unfoldable pub node_from_attrs : NodeCodec → NodeItem → Outcome Node
node_from_attrs c item = elim (bytes_of (item node_pb)) [
  | none ↦ err other_error
  | some b ↦ elim (c.unmarshal b) [ none ↦ err other_error | some n ↦ ok n ]
]

unfoldable pub put_condition : ℕ → Condition NodeAttr
put_condition expected =
    if nat_beq expected 0
    then attribute_not_exists node_id
    else both (attribute_exists node_id) (equals node_version (member_n expected))

unfoldable pub diagnose_put_conflict : ℕ → Option NodeItem → Error
diagnose_put_conflict expected row =
    if nat_beq expected 0
    then already_exists
    else (elim row [ none ↦ not_found | some item ↦ version_conflict ])

module _ (c : NodeCodec) (db : Client NodeAttr node_id) where
  open db use {Table, put_item, get_item}

  unfoldable pub fetch_stored_item : Table → Option NodeItem → Text → GetResult NodeAttr
  fetch_stored_item t none id = get_item t id
  fetch_stored_item t (some item) id = got (some item)

  -- Put after a failed condition, given the row that was read; `n` is the node as it was to be stored.
  unfoldable pub put_retry : ℕ → Node → Text → GetResult NodeAttr → Outcome Node
  put_retry expected n digest get_failed = err other_error
  put_retry expected n digest (got row) =
      let conflict = diagnose_put_conflict expected row in
      elim (digest_from_attrs row) [
        | none ↦ err conflict
        | some d ↦ if text_beq digest d then ok n else err conflict
      ]

  unfoldable pub put_result : ℕ → Node → Text → Table × PutResult NodeAttr → Table × Outcome Node
  put_result expected n digest (t, stored) = (t, ok n)
  put_result expected n digest (t, put_failed) = (t, err other_error)
  put_result expected n digest (t, rejected old) =
      (t, put_retry expected n digest (fetch_stored_item t old n.metadata.id))

  -- `ok` carries the caller's node as it stands after the call.
  unfoldable pub put : ℕ → Node → Table → Table × Outcome Node
  put now n t = elim (content_digest c (stamped now n)) [
    | none ↦ (t, err other_error)
    | some digest ↦ elim (to_item c (persisted now n) digest) [
      | none ↦ (t, err other_error)
      | some item ↦
          put_result n.metadata.version (persisted now n) digest
            (put_item t item (put_condition n.metadata.version))
    ]
  ]

  unfoldable pub get : Text → Table → Outcome Node
  get id t = elim (get_item t id) [
    | get_failed ↦ err other_error
    | got o ↦ elim o [ none ↦ err not_found | some item ↦ node_from_attrs c item ]
  ]
