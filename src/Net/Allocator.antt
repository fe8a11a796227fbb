-- ===== src/Net/Allocator.antt =====
-- daemon/pkg/network/allocator.go: the names and addresses of a VM's network, from its index. An
-- index is an int of the source that the code tests against 0; here it is not negative.
pub mod Disjoint
pub mod Names
use yaghan.Base.{
  ℕ, zero, suc, ◌+◌, ◌-◌, ◌*◌, ◌/◌, ◌%◌, ◌^◌, ◌≡◌, Bool, List, ◌++◌, if◌then◌else◌, leb, Option,
  none, some,
}
use yaghan.Base.Text.{Text, codes}
use yaghan.Base.Decimal.{decimal}
use yaghan.Net.Addr.{Addr, v4}

abbrev pub veth_subnet_bits : ℕ
veth_subnet_bits = 30

abbrev pub veth_subnet_size : ℕ
veth_subnet_size = 2 ^ (32 - veth_subnet_bits)

abbrev pub max_index : ℕ
max_index = 2 ^ 16 / veth_subnet_size

-- 10.0.0.0
abbrev pub veth_base_network : ℕ
veth_base_network = 0x0a000000

abbrev pub tap_device_name : Text
tap_device_name = codes "vm-tap0"

abbrev pub namespace_veth_name : Text
namespace_veth_name = codes "vm-veth0"

-- 172.16.0.1 and 172.16.0.2
abbrev pub tap_ip : Addr
tap_ip = v4 0xac100001

abbrev pub guest_ip : Addr
guest_ip = v4 0xac100002

-- An IPv4 prefix: its address and its length.
pub record Prefix : Type 0 where
  pub addr : ℕ
  pub bits : ℕ

unfoldable pub vm_subnet : Prefix
vm_subnet = record { addr = veth_base_network; bits = 16 }

unfoldable pub guest_subnet : Prefix
guest_subnet = record { addr = 0xac100000; bits = 30 }

-- Whether the index passes validateIndex.
unfoldable pub validate_index : ℕ → Bool
validate_index index = leb (suc index) max_index

unfoldable pub namespace_name : ℕ → Text
namespace_name index = codes "vm-ns" ++ decimal index

unfoldable pub host_veth_name : ℕ → Text
host_veth_name index = codes "host-veth" ++ decimal index

abbrev pub u32 : ℕ → ℕ
u32 n = n % 2 ^ 32

pub record VethSubnet : Type 0 where
  pub host : Addr
  pub namespace : Addr
  pub prefix : Prefix

unfoldable pub veth_subnet_for : ℕ → VethSubnet
veth_subnet_for index =
    let network = u32 (veth_base_network + u32 (u32 index * veth_subnet_size)) in
    record {
      host = v4 (u32 (network + 1));
      namespace = v4 (u32 (network + 2));
      prefix = record { addr = network; bits = veth_subnet_bits };
    }

pub record NamespaceHandle : Type 0 where
  pub index : ℕ
  pub namespace_name : Text
  pub tap_device_name : Text
  pub tap_ip : Addr
  pub guest_ip : Addr
  pub host_veth_name : Text
  pub host_veth_ip : Addr
  pub namespace_veth_ip : Addr

unfoldable pub build_handle : ℕ → NamespaceHandle
build_handle i = record {
  index = i;
  namespace_name = namespace_name i;
  tap_device_name = tap_device_name;
  tap_ip = tap_ip;
  guest_ip = guest_ip;
  host_veth_name = host_veth_name i;
  host_veth_ip = (veth_subnet_for i).host;
  namespace_veth_ip = (veth_subnet_for i).namespace;
}

unfoldable pub namespace_veth_ip_for : ℕ → Option Addr
namespace_veth_ip_for index =
    if validate_index index then some (veth_subnet_for index).namespace else none
