-- ===== src/Net/Allocator/Disjoint.antt =====
-- The addresses of different VMs do not meet, and stay in the pool.
use yaghan.Base.{
  ℕ, ◌+◌, ◌*◌, ◌%◌, ◌^◌, ◌≡◌, ◌≢◌, ◌≤◌, ◌<◌, ◌-◌, ap, sym, ◌∙◌, refl, true, some, none, arith,
  if◌then◌else◌,
}
use yaghan.Net.Addr.{v4}
use yaghan.Net.Allocator.{
  max_index, veth_base_network, validate_index, veth_subnet_for, build_handle,
  namespace_veth_ip_for, vm_subnet,
}

index-lt : (i : ℕ) → validate_index i ≡ true → i < max_index
unfolding validate_index
index-lt i h = ground arith

v4_apart : {a b : ℕ} → a ≢ b → v4 a ≢ v4 b
v4_apart h e = h (cc)

subnet_parts :
    (i : ℕ)
    → i < max_index
    → ((veth_subnet_for i).prefix.addr ≡ veth_base_network + 4 * i)
      × ((veth_subnet_for i).host ≡ v4 (veth_base_network + 4 * i + 1))
      × ((veth_subnet_for i).namespace ≡ v4 (veth_base_network + 4 * i + 2))
unfolding veth_subnet_for
subnet_parts i h = (omega arith, ap v4 (omega arith), ap v4 (omega arith))

-- An accepted index has a subnet of four addresses that begins at a multiple of four, lies wholly in
-- the pool 10.0.0.0/16, and holds the host's and the namespace's end as its second and third address.
pub veth_subnet_for_in_pool :
    (i : ℕ)
    → validate_index i ≡ true
    → let s = veth_subnet_for i in
      (s.prefix.addr % 4 ≡ 0)
      × (vm_subnet.addr ≤ s.prefix.addr)
      × (s.prefix.addr + 3 < vm_subnet.addr + 2 ^ (32 - vm_subnet.bits))
      × (s.host ≡ v4 (s.prefix.addr + 1))
      × (s.namespace ≡ v4 (s.prefix.addr + 2))
unfolding vm_subnet
veth_subnet_for_in_pool i h =
    let lt = index-lt i h in
    let (net, host, ns) = subnet_parts i lt in
    (omega arith, omega arith, omega arith, host ∙ ap v4 (omega arith), ns ∙ ap v4 (omega arith))

-- The addresses of two VMs with different accepted indexes differ: neither end of the one pair is an
-- end of the other.
pub veth_subnet_for_disjoint :
    (i j : ℕ)
    → validate_index i ≡ true
    → validate_index j ≡ true
    → i ≢ j
    → let s = veth_subnet_for i in
      let t = veth_subnet_for j in
      (s.host ≢ t.host)
      × (s.host ≢ t.namespace)
      × (s.namespace ≢ t.host)
      × (s.namespace ≢ t.namespace)
veth_subnet_for_disjoint i j hi hj ne =
    let (_, hosti, nsi) = subnet_parts i (index-lt i hi) in
    let (_, hostj, nsj) = subnet_parts j (index-lt j hj) in
    (
      (λ e. v4_apart (λ q. ne (omega arith)) (sym hosti ∙ e ∙ hostj)),
      (λ e. v4_apart (λ q. omega arith) (sym hosti ∙ e ∙ nsj)),
      (λ e. v4_apart (λ q. omega arith) (sym nsi ∙ e ∙ hostj)),
      (λ e. v4_apart (λ q. ne (omega arith)) (sym nsi ∙ e ∙ nsj)),
    )

-- The address that a delete looks up from the index alone is the one that the handle of a provisioned
-- network carries, for every accepted index; other indexes are refused.
pub namespace_veth_ip_for-build_handle :
    (i : ℕ)
    → namespace_veth_ip_for i
      ≡ (if validate_index i then some (build_handle i).namespace_veth_ip else none)
unfolding namespace_veth_ip_for build_handle
namespace_veth_ip_for-build_handle i = refl
