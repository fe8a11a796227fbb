-- ===== src/Daemon/Egress.antt =====
-- daemon/pkg/reconciler/reconciler.go: what a sandbox's egress policy and resources become on the host.
use yaghan.Base.{
  ℕ, Bool, true, false, ◌&&◌, not, List, [], ◌∷◌, ◌++◌, Option, none, some, if◌then◌else◌, ltb,
}
use yaghan.Base.Text.{Text, codes, text_beq}
use yaghan.Base.Decimal.{decimal}
use yaghan.Net.Addr.{Addr, is_valid}
use yaghan.Net.Allocator.{Prefix, NamespaceHandle}
use yaghan.Proto.{EgressTargets, EgressRules, allow, deny, Resources, Sandbox}
use yaghan.Dns.Matcher.{compiled, refused, compile_matchers}
use yaghan.Dns.PolicyStore.{
  EgressMode, mode_allow, mode_deny, SandboxDnsPolicy, PolicyStore, upsert, remove,
}

-- Packages netip and path/filepath.
pub record Library : Type 0 where
  pub show_addr : Addr → Text
  pub parse_addr : Text → Option Addr
  pub parse_prefix : Text → Option Prefix
  pub join_path : Text → Text → Text

pub data FirewallMode : Type 0 where
  egress_allow egress_deny : FirewallMode

-- network.EgressPolicy
pub record FirewallPolicy : Type 0 where
  pub mode : FirewallMode
  pub ips : List Addr
  pub cidrs : List Prefix
  pub domains : List Text

-- The texts that parse, in order; the others are skipped.
abbrev parse_all {ℓ} : {A : Type ℓ} → (Text → Option A) → List Text → List A
parse_all parse [] = []
parse_all parse (raw ∷ more) = elim (parse raw) [
  | none ↦ parse_all parse more
  | some x ↦ x ∷ parse_all parse more
]

-- The rules of a sandbox: GetEgressPolicy, then the oneof.
abbrev pub rules_of : Sandbox → Option EgressRules
rules_of sb = elim sb.egress_policy [ none ↦ none | some p ↦ p.rules ]

abbrev pub targets_of : EgressRules → EgressTargets
targets_of (allow t) = t
targets_of (deny t) = t

abbrev firewall_mode : EgressRules → FirewallMode
firewall_mode (allow t) = egress_allow
firewall_mode (deny t) = egress_deny

abbrev pub dns_mode : EgressRules → EgressMode
dns_mode (allow t) = mode_allow
dns_mode (deny t) = mode_deny

abbrev is_empty {ℓ} : {A : Type ℓ} → List A → Bool
is_empty [] = true
is_empty (_ ∷ _) = false

unfoldable pub translate_egress_policy : Library → Sandbox → Option FirewallPolicy
translate_egress_policy lib sb = elim (rules_of sb) [
  | none ↦ none
  | some rules ↦ some (record {
    mode = firewall_mode rules;
    ips = parse_all lib.parse_addr (targets_of rules).ip_addresses;
    cidrs = parse_all lib.parse_prefix (targets_of rules).cidr_blocks;
    domains = (targets_of rules).domain_names;
  })
]

unfoldable pub has_domain_policy : Sandbox → Bool
has_domain_policy sb = elim (rules_of sb) [
  | none ↦ false
  | some rules ↦ not (is_empty (targets_of rules).domain_names)
]

-- Whether checkDNSPrereq lets the sandbox boot.
unfoldable pub check_dns_prereq : Option PolicyStore → Sandbox → Bool
check_dns_prereq none sb = not (has_domain_policy sb)
check_dns_prereq (some store) sb = true

abbrev dns_policy : NamespaceHandle → EgressRules → Option SandboxDnsPolicy
dns_policy nsh rules =
    if is_empty (targets_of rules).domain_names
    then none
    else (elim (compile_matchers (targets_of rules).domain_names) [
      | refused e ↦ none
      | compiled ms ↦ some (record {
        index = nsh.index;
        namespace_name = nsh.namespace_name;
        mode = dns_mode rules;
        matchers = ms;
      })
    ])

-- The policy that registerDNSPolicy hands to the responder, `none` where it hands over nothing.
unfoldable pub dns_policy_of : Sandbox → NamespaceHandle → Option SandboxDnsPolicy
dns_policy_of sb nsh = elim (rules_of sb) [ none ↦ none | some rules ↦ dns_policy nsh rules ]

unfoldable pub register_dns_policy :
    Sandbox → NamespaceHandle → Option PolicyStore → Option PolicyStore
register_dns_policy sb nsh none = none
register_dns_policy sb nsh (some store) = elim (dns_policy_of sb nsh) [
  | none ↦ some store
  | some p ↦ some (upsert nsh.namespace_veth_ip p store)
]

unfoldable pub remove_dns_policy : Addr → Option PolicyStore → Option PolicyStore
remove_dns_policy src none = none
remove_dns_policy src (some store) = if is_valid src then some (remove src store) else some store

-- config.MicroVM, the template of every VM.
pub record Template : Type 0 where
  pub kernel_file : Text
  pub rootfs_file : Text
  pub kernel_jail_path : Text
  pub rootfs_jail_path : Text
  pub agent_init_path : Text
  pub agent_vsock_port : ℕ
  pub default_rootfs_disk_mib : ℕ

-- The parts of the configuration that a boot reads; `dns_listen_ip` is empty without a responder.
pub record Config : Type 0 where
  pub template : Template
  pub assets_dir : Text
  pub dns_listen_ip : Text
  pub guest_dns : List Text
  pub has_snapshot_store : Bool
  pub has_snapshot_client : Bool

-- strings.Join
abbrev join : List Text → Text
join [] = []
join (t ∷ []) = t
join (t ∷ u ∷ more) = t ++ b',' ∷ join (u ∷ more)

unfoldable pub build_boot_args : Library → Config → Sandbox → NamespaceHandle → Text
build_boot_args lib cfg sb nsh =
    let base =
      codes "console=ttyS0 reboot=k panic=1 pci=off ip="
      ++ lib.show_addr nsh.guest_ip
      ++ codes "::"
      ++ lib.show_addr nsh.tap_ip
      ++ codes ":255.255.255.252::eth0:off init="
      ++ cfg.template.agent_init_path
      ++ codes " agent.port="
      ++ decimal cfg.template.agent_vsock_port in
    if has_domain_policy sb && not (text_beq cfg.dns_listen_ip [])
    then base ++ codes " agent.dns=" ++ cfg.dns_listen_ip
    else if is_empty cfg.guest_dns
    then base
    else base ++ codes " agent.dns=" ++ join cfg.guest_dns

-- sb.GetResources().GetDiskMib() and its like
abbrev resource : (Resources → ℕ) → Sandbox → ℕ
resource field sb = elim sb.resources [ none ↦ 0 | some r ↦ field r ]

unfoldable pub resolve_rootfs_disk_mib : Sandbox → Template → ℕ
resolve_rootfs_disk_mib sb tmpl =
    if ltb 0 (resource (λ r. r.disk_mib) sb)
    then resource (λ r. r.disk_mib) sb
    else tmpl.default_rootfs_disk_mib

pub record Asset : Type 0 where
  pub source_path : Text
  pub jail_path : Text
  pub writable : Bool

-- firecracker.CreateMicroVMInput, with the fields of its Config that depend on the sandbox.
pub record CreateMicroVmInput : Type 0 where
  pub id : Text
  pub network : NamespaceHandle
  pub boot_args : Text
  pub vcpu_count : ℕ
  pub mem_size_mib : ℕ
  pub agent_vsock_port : ℕ
  pub rootfs_disk_mib : ℕ
  pub assets : List Asset

abbrev assets : Library → Config → List Asset
assets lib cfg =
    record {
      source_path = lib.join_path cfg.assets_dir cfg.template.kernel_file;
      jail_path = cfg.template.kernel_jail_path;
      writable = false;
    }
    ∷ record {
      source_path = lib.join_path cfg.assets_dir cfg.template.rootfs_file;
      jail_path = cfg.template.rootfs_jail_path;
      writable = true;
    }
    ∷ []

unfoldable pub build_create_input :
    Library → Config → Sandbox → NamespaceHandle → CreateMicroVmInput
build_create_input lib cfg sb nsh = record {
  id = sb.metadata.id;
  network = nsh;
  boot_args = build_boot_args lib cfg sb nsh;
  vcpu_count = resource (λ r. r.vcpu_count) sb;
  mem_size_mib = resource (λ r. r.memory_mib) sb;
  agent_vsock_port = cfg.template.agent_vsock_port;
  rootfs_disk_mib = resolve_rootfs_disk_mib sb cfg.template;
  assets = assets lib cfg;
}

-- snapshot.LocalReference: the snapshot's id and the paths of its two files.
pub record LocalReference : Type 0 where
  pub snapshot_id : Text
  pub mem_file_path : Text
  pub state_file_path : Text

pub record LoadSnapshotInput : Type 0 where
  pub id : Text
  pub network : NamespaceHandle
  pub agent_vsock_port : ℕ
  pub local_reference : LocalReference
  pub assets : List Asset

unfoldable pub build_load_snapshot_input :
    Library → Config → Sandbox → NamespaceHandle → LocalReference → LoadSnapshotInput
build_load_snapshot_input lib cfg sb nsh ref = record {
  id = sb.metadata.id;
  network = nsh;
  agent_vsock_port = cfg.template.agent_vsock_port;
  local_reference = ref;
  assets = assets lib cfg;
}
