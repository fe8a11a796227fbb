-- ===== src/Db/Node/Tests.antt =====
-- A node that registers, on a table in memory.
use yaghan.Base.{◌≡◌, ◌≢◌, refl, false, [], none, some}
use yaghan.Base.Text.{Text, codes, text_beq}
use yaghan.Db.Errors.{other_error}
use yaghan.Db.Dynamo.{Client}
use yaghan.Db.Memory.{memory_of, empty_rows}
use yaghan.Db.Node.{
  canonical, Node, NodeAttr, node_id, NodeCodec, stamped, content_digest, put, put_result,
  put_condition, to_item, item_of,
}
use yaghan.Db.Node.Register.{Represents, no_row, error_of, write_register}
use yaghan.Db.Node.Refinement.{put-write_register}

-- An encoding of nodes by their id.
abbrev by_id : NodeCodec
by_id = record {
  marshal = λ n. some n.metadata.id;
  unmarshal = λ b. none;
  marshal_deterministic = λ n. some n.metadata.id;
  sha256 = λ b. b;
  rfc3339_nano = λ t. [];
}

abbrev nodes : Client NodeAttr node_id
nodes = memory_of node_id

abbrev machine : Node
machine = record {
  metadata = record { id = codes "i-1"; version = 0; created_at = none; last_modified_at = none };
  resources = none;
  metrics = none;
  status = none;
  provider_metadata = none;
}

abbrev empty : Client.Table nodes
empty = empty_rows node_id

digest_known : content_digest by_id (stamped 100 machine) ≡ some (codes "i-1")
unfolding content_digest canonical
digest_known = refl

no_fault : error_of (put by_id nodes 100 machine empty).1 ≢ some other_error
unfolding put content_digest to_item item_of put_result put_condition text_beq
no_fault e = cc

put-write_register_example :
    (error_of (put by_id nodes 100 machine empty).1 ≡ (write_register 0 (codes "i-1") none).1)
    × Represents
        (codes "i-1")
        (Client.row nodes (put by_id nodes 100 machine empty).0 (codes "i-1"))
        (write_register 0 (codes "i-1") none).0
    × ((j : Text)
        → text_beq (codes "i-1") j ≡ false
        → Client.row nodes (put by_id nodes 100 machine empty).0 j ≡ Client.row nodes empty j)
put-write_register_example =
    put-write_register by_id nodes empty 100 machine (codes "i-1") none digest_known no_row no_fault
