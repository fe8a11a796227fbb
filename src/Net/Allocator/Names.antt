-- ===== src/Net/Allocator/Names.antt =====
-- The names of a VM's network objects: unique to the index, and within the kernel's limits.
use yaghan.Base.{
  ℕ, ◌^◌, ◌≡◌, ◌≢◌, ◌≤◌, ◌<◌, ap, sym, ◌∙◌, true, arith, ◌++◌, length, length-append, drop,
  drop-append,
}
use yaghan.Base.Text.{Text, codes}
use yaghan.Base.Decimal.{decimal, decimal-injective, length-decimal}
use yaghan.Net.Allocator.{validate_index, namespace_name, host_veth_name}

prefixed-injective : (p : Text) (i j : ℕ) → p ++ decimal i ≡ p ++ decimal j → i ≡ j
prefixed-injective p i j e =
    decimal-injective i j
      (sym (drop-append p (decimal i)) ∙ ap (drop (length p)) e ∙ drop-append p (decimal j))

-- Different indexes have different namespaces and different host devices.
pub names-injective :
    (i j : ℕ)
    → i ≢ j
    → (namespace_name i ≢ namespace_name j) × (host_veth_name i ≢ host_veth_name j)
unfolding namespace_name host_veth_name
names-injective i j ne = (
  (λ e. ne (prefixed-injective (codes "vm-ns") i j e)),
  (λ e. ne (prefixed-injective (codes "host-veth") i j e)),
)

index-lt-pow : (i : ℕ) → validate_index i ≡ true → i < 10 ^ 5
unfolding validate_index
index-lt-pow i h = ground arith

-- The host device of an accepted index has a name of at most 15 bytes, the most that Linux accepts
-- for a network device.
pub host_veth_name-fits : (i : ℕ) → validate_index i ≡ true → length (host_veth_name i) ≤ 15
unfolding host_veth_name
host_veth_name-fits i h =
    omega
      (arith, length-append (codes "host-veth") (decimal i), length-decimal 4 i (index-lt-pow i h))
