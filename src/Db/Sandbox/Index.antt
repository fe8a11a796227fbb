-- ===== src/Db/Sandbox/Index.antt =====
-- api-server/pkg/db/sandbox/dynamodb/list.go: the options of a List and the index that serves it.
pub mod Keys
pub mod Match
use yaghan.Base.{
  ℕ, suc, ◌+◌, ◌≡◌, ◌≢◌, ◌↔◌, refl, sym, ap, ◌∙◌, ◌⊎◌, inl, inr, Bool, true, false, ◌&&◌, ◌||◌, not,
  List, [], ◌∷◌, ◌++◌, Option, none, some, if◌then◌else◌, ◌==◌, beq_refl, Bool-cases, Option-cases,
  arith, nat_beq,
}
use yaghan.Base.Text.{Text, codes, text_beq, text_beq_iff, text_eq, contains_byte}
use yaghan.Proto.{
  Phase, phase_unspecified, phase_pending, phase_running, phase_pausing, phase_paused,
  phase_resuming, phase_snapshotting, phase_deleting, phase_deleted, phase_failed, phase_name,
  Sandbox, status_phase, node_id,
}
use yaghan.Db.Errors.{Error, invalid_list_options, Outcome, ok, err}
use yaghan.Db.Dynamo.{AttributeValue, member_s}
use yaghan.Db.Sandbox.{
  SandboxAttr, sandbox_namespace, node_ref_id, gsi_namespace_phase_hk, gsi_namespace_node_hk,
  gsi_node_phase_hk, gsi_namespace_node_phase_hk, SandboxItem, Codec, item_of, when_node,
  gsi_namespace_phase_key, gsi_namespace_node_key, gsi_node_phase_key, gsi_namespace_node_phase_key,
}

pub data IndexName : Type 0 where
  by_namespace_index by_status_phase_index by_node_index : IndexName
  by_namespace_node_index by_node_phase_index by_namespace_node_phase_index : IndexName

pub data Order : Type 0 where
  order_unspecified order_newest_first order_oldest_first : Order

-- The token is left out: it is opaque to the layers that this file models.
pub record ListOptions : Type 0 where
  pub namespace : Text
  pub node_id : Text
  pub status_phase : Phase
  pub sort_order : Order
  pub page_size : ℕ

unfoldable pub has_phase : Phase → Bool
has_phase phase_unspecified = false
has_phase _ = true

unfoldable pub scan_index_forward : Order → Outcome Bool
scan_index_forward order_newest_first = ok false
scan_index_forward order_oldest_first = ok true
scan_index_forward order_unspecified = err invalid_list_options

pub record Partition : Type 0 where
  pub index_name : IndexName
  pub hk_name : SandboxAttr
  pub hk_value : Text

-- The `switch` of selectIndex, on whether a namespace, a node and a phase are given.
unfoldable pub partition_of : ListOptions → Bool → Bool → Bool → Partition
partition_of opts true true true = record {
  index_name = by_namespace_node_phase_index;
  hk_name = gsi_namespace_node_phase_hk;
  hk_value = opts.namespace ++ b'#' ∷ (opts.node_id ++ b'#' ∷ phase_name opts.status_phase);
}
partition_of opts true true false = record {
  index_name = by_namespace_node_index;
  hk_name = gsi_namespace_node_hk;
  hk_value = opts.namespace ++ b'#' ∷ opts.node_id;
}
partition_of opts true false true = record {
  index_name = by_status_phase_index;
  hk_name = gsi_namespace_phase_hk;
  hk_value = opts.namespace ++ b'#' ∷ phase_name opts.status_phase;
}
partition_of opts true false false = record {
  index_name = by_namespace_index;
  hk_name = sandbox_namespace;
  hk_value = opts.namespace;
}
partition_of opts false true true = record {
  index_name = by_node_phase_index;
  hk_name = gsi_node_phase_hk;
  hk_value = opts.node_id ++ b'#' ∷ phase_name opts.status_phase;
}
partition_of opts false _ _ = record {
  index_name = by_node_index;
  hk_name = node_ref_id;
  hk_value = opts.node_id;
}

unfoldable pub select_index : ListOptions → Partition
unfolding has_phase partition_of
select_index opts =
    partition_of opts (not (text_beq opts.namespace [])) (not (text_beq opts.node_id []))
      (has_phase opts.status_phase)
