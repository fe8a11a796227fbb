-- ===== src/Net/Tests.antt =====
-- The network allocation at concrete indexes.
use yaghan.Base.{◌≤◌, ◌<◌, ◌+◌, ◌-◌, ◌^◌, ◌%◌, ◌≡◌, ◌≢◌, refl, arith}
use yaghan.Net.Addr.{v4}
use yaghan.Net.Allocator.{vm_subnet, validate_index, veth_subnet_for}
use yaghan.Net.Allocator.Disjoint.{veth_subnet_for_in_pool, veth_subnet_for_disjoint}

veth_subnet_for_in_pool_example :
    let s = veth_subnet_for 7 in
    (s.prefix.addr % 4 ≡ 0)
    × (vm_subnet.addr ≤ s.prefix.addr)
    × (s.prefix.addr + 3 < vm_subnet.addr + 2 ^ (32 - vm_subnet.bits))
    × (s.host ≡ v4 (s.prefix.addr + 1))
    × (s.namespace ≡ v4 (s.prefix.addr + 2))
unfolding validate_index
veth_subnet_for_in_pool_example = veth_subnet_for_in_pool 7 refl

veth_subnet_for_disjoint_example :
    let s = veth_subnet_for 7 in
    let t = veth_subnet_for 8 in
    (s.host ≢ t.host)
    × (s.host ≢ t.namespace)
    × (s.namespace ≢ t.host)
    × (s.namespace ≢ t.namespace)
unfolding validate_index
veth_subnet_for_disjoint_example = veth_subnet_for_disjoint 7 8 refl refl (omega arith)
