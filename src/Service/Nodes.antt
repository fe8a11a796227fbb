-- ===== src/Service/Nodes.antt =====
-- api-server/pkg/service/cluster_node.go: how the api-server writes the node of a daemon, by reading,
-- changing and writing back, at most three times (the loop is the recursion of attempts). What other writers do between the read and the write
-- of an attempt is a parameter.
pub mod Registered
mod Tests
use yaghan.Base.{ℕ, zero, suc, Bool, true, false, Option, none, some, if◌then◌else◌}
use yaghan.Base.Text.{Text}
use yaghan.Db.Errors.{
  Error, already_exists, not_found, version_conflict, typed, invalid_argument, Outcome, ok, err,
}
use yaghan.Db.Dynamo.{Client}
use yaghan.Db.Node.{Node, NodeMetrics, NodeStatus, NodeAttr, node_id, NodeCodec, put, get}

abbrev pub node_write_max_attempts : ℕ
node_write_max_attempts = 3

-- What an attempt does after its read: it writes a node and tries again after one error, or gives up.
pub data Attempt : Type 0 where
  write : Node → Error → Attempt
  give_up : Error → Attempt

-- The metadata of a first registration.
unfoldable pub fresh : Node → Node
fresh payload =
    let id = payload.metadata.id in
    record payload {
      metadata = record { id = id; version = 0; created_at = none; last_modified_at = none };
    }

-- The fields of a node that its daemon owns.
unfoldable pub overlay : Node → Node → Node
overlay payload saved = record payload { metadata = saved.metadata }

unfoldable pub plan_registration : Node → Outcome Node → Attempt
plan_registration payload (ok saved) = write (overlay payload saved) version_conflict
plan_registration payload (err not_found) = write (fresh payload) already_exists
plan_registration payload (err e) = give_up e

pub data Patch : Type 0 where
  patch_metrics : NodeMetrics → Patch
  patch_status : NodeStatus → Patch

unfoldable pub plan_patch : Patch → Outcome Node → Attempt
plan_patch (patch_metrics m) (ok n) = write (record n { metrics = some m }) version_conflict
plan_patch (patch_status s) (ok n) = write (record n { status = some s }) version_conflict
plan_patch p (err e) = give_up e

-- errors.Is for the two sentinels that are tried again.
abbrev pub is_again : Error → Error → Bool
is_again already_exists already_exists = true
is_again version_conflict version_conflict = true
is_again _ _ = false

module _ (c : NodeCodec) (db : Client NodeAttr node_id)
    (meanwhile : ℕ → Client.Table db → Client.Table db) where
  open db use {Table}

  -- The loop of both calls; `none` is success.
  unfoldable pub attempts : (Outcome Node → Attempt) → ℕ → ℕ → Text → Table → Table × Option Error
  attempts plan zero now id t = (t, some version_conflict)
  attempts plan (suc left) now id t = elim (plan (get c db id t)) [
    | give_up e ↦ (t, some e)
    | write n again ↦
        let r = put c db now n (meanwhile left t) in
        let rest = attempts plan left now id r.0 in
        elim r.1 [ ok m ↦ (r.0, none) | err e ↦ if is_again e again then rest else (r.0, some e) ]
  ]

  unfoldable pub register_node : ℕ → Node → Table → Table × Option Error
  register_node now payload t =
      attempts (plan_registration payload) node_write_max_attempts now payload.metadata.id t

  unfoldable pub apply_node_patch : ℕ → Text → Option Patch → Table → Table × Option Error
  apply_node_patch now id none t = (t, some (typed invalid_argument))
  apply_node_patch now id (some p) t = attempts (plan_patch p) node_write_max_attempts now id t
