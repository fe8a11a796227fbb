-- ===== src/Proto.antt =====
-- The messages of apis/proto/yaghan/control_plane/v1alpha1/sandbox.proto and snapshot.proto that the
-- programs exchange. A message field may be absent; `metadata`, which the validator requires, may not.
-- Timestamps are nanoseconds.
use yaghan.Base.{ℕ, List, [], Option, none, some}
use yaghan.Base.Text.{Text, codes}

pub data Phase : Type 0 where
  phase_unspecified phase_pending phase_running phase_pausing phase_paused phase_resuming : Phase
  phase_snapshotting phase_deleting phase_deleted phase_failed : Phase

-- The name of a phase, the generated String().
unfoldable pub phase_name : Phase → Text
phase_name phase_unspecified = codes "PHASE_UNSPECIFIED"
phase_name phase_pending = codes "PHASE_PENDING"
phase_name phase_running = codes "PHASE_RUNNING"
phase_name phase_pausing = codes "PHASE_PAUSING"
phase_name phase_paused = codes "PHASE_PAUSED"
phase_name phase_resuming = codes "PHASE_RESUMING"
phase_name phase_snapshotting = codes "PHASE_SNAPSHOTTING"
phase_name phase_deleting = codes "PHASE_DELETING"
phase_name phase_deleted = codes "PHASE_DELETED"
phase_name phase_failed = codes "PHASE_FAILED"

pub data Reference : Type 0 where
  snapshot_id image_id : Text → Reference

pub record SandboxSource : Type 0 where
  pub reference : Option Reference

pub record SandboxMeta : Type 0 where
  pub id : Text
  pub namespace : Text
  pub source : Option SandboxSource
  pub version : ℕ
  pub created_at : Option ℕ
  pub last_modified_at : Option ℕ
  pub labels : List (Text × Text)

pub record EgressTargets : Type 0 where
  pub ip_addresses : List Text
  pub cidr_blocks : List Text
  pub domain_names : List Text

pub data EgressRules : Type 0 where
  allow deny : EgressTargets → EgressRules

pub record EgressPolicy : Type 0 where
  pub rules : Option EgressRules

pub record Resources : Type 0 where
  pub vcpu_count : ℕ
  pub memory_mib : ℕ
  pub disk_mib : ℕ

pub record StartSnapshotInput : Type 0 where
  pub description : Text

pub record Intent : Type 0 where
  pub phase : Phase
  pub start_snapshot : Option StartSnapshotInput

pub record RpcStatus : Type 0 where
  pub code : ℕ
  pub message : Text

pub record SnapshotOutput : Type 0 where
  pub snapshot_id : Text
  pub created_at : Option ℕ
  pub error : Option RpcStatus

pub record SandboxStatus : Type 0 where
  pub phase : Phase
  pub message : Text

-- `node` is the id of the NodeRef.
pub record Sandbox : Type 0 where
  pub metadata : SandboxMeta
  pub egress_policy : Option EgressPolicy
  pub resources : Option Resources
  pub node : Option Text
  pub intent : Option Intent
  pub last_snapshot : Option SnapshotOutput
  pub status : Option SandboxStatus

-- sb.GetStatus().GetPhase()
abbrev pub status_phase : Sandbox → Phase
status_phase sb = elim sb.status [ none ↦ phase_unspecified | some s ↦ s.phase ]

-- sb.GetStatus().GetMessage()
abbrev pub status_message : Sandbox → Text
status_message sb = elim sb.status [ none ↦ [] | some s ↦ s.message ]

-- sb.GetNode().GetId()
abbrev pub node_id : Sandbox → Text
node_id sb = elim sb.node [ none ↦ [] | some n ↦ n ]

pub record Snapshot : Type 0 where
  pub id : Text
  pub namespace : Text
  pub description : Text
  pub created_at : Option ℕ
  pub sandbox : Text
  pub resources : Option Resources
