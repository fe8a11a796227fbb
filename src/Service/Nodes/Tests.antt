-- ===== src/Service/Nodes/Tests.antt =====
-- A daemon that registers for the first time, on a table in memory.
use yaghan.Base.{ℕ, ◌≡◌, refl, [], none, some}
use yaghan.Base.Text.{codes, text_beq}
use yaghan.Db.Dynamo.{Client}
use yaghan.Db.Errors.{ok}
use yaghan.Db.Memory.{memory_of, empty_rows}
use yaghan.Db.Node.{
  Node, NodeAttr, node_id, NodeCodec, content_digest, put, get, put_result, put_condition, to_item,
  item_of,
}
use yaghan.Service.Nodes.{plan_registration, fresh, attempts, register_node}
use yaghan.Service.Nodes.Registered.{IsRegistration, register_node-IsRegistration}

-- An encoding of nodes by their id.
abbrev by_id : NodeCodec
by_id = record {
  marshal = λ n. some n.metadata.id;
  unmarshal = λ b. none;
  marshal_deterministic = λ n. some n.metadata.id;
  sha256 = λ b. b;
  rfc3339_nano = λ t. [];
}

abbrev nodes : Client NodeAttr node_id
nodes = memory_of node_id

abbrev machine : Node
machine = record {
  metadata = record { id = codes "i-1"; version = 7; created_at = none; last_modified_at = none };
  resources = none;
  metrics = none;
  status = none;
  provider_metadata = none;
}

abbrev empty : Client.Table nodes
empty = empty_rows node_id

abbrev undisturbed : ℕ → Client.Table nodes → Client.Table nodes
undisturbed left t = t

registered : (register_node by_id nodes undisturbed 100 machine empty).1 ≡ none
unfolding register_node attempts plan_registration fresh get put content_digest to_item item_of
    put_result put_condition text_beq
registered = refl

register_node-IsRegistration_example :
    (seen before : Client.Table nodes) × (n m : Node) × IsRegistration machine
      (get by_id nodes (codes "i-1") seen)
      n
    × (put by_id nodes 100 n before
        ≡ ((register_node by_id nodes undisturbed 100 machine empty).0, ok m))
register_node-IsRegistration_example =
    register_node-IsRegistration by_id nodes undisturbed 100 machine empty registered
