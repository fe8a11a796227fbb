-- ===== src/Daemon/Firewall.antt =====
-- daemon/pkg/network/firewall/iptables.go and ipset.go: the rules of the host and of a sandbox's
-- network namespace. A rule's argument list is a record of the matches it names; the comment, which
-- every rule carries, is left out. iptables and ipset may fail at any call; a call that kernel does
-- what their manuals say.
pub mod Rules
pub mod Sequence
pub mod Verdict
pub mod Policy
pub mod Additions
pub mod Egress
pub mod Calls
pub mod Repeat
mod Tests
use yaghan.Base.{
  ℕ, ◌/◌, ◌^◌, ltb, Bool, true, false, not, List, [], ◌∷◌, ◌++◌, ◌≡◌, ◌⊎◌, Option, none, some,
  if◌then◌else◌, leb, nat_beq,
}
use yaghan.Base.Text.{Text, codes, text_beq}
use yaghan.Base.Decimal.{decimal}
use yaghan.Net.Addr.{Addr, is_valid}
use yaghan.Net.Allocator.{Prefix}
use yaghan.Daemon.Egress.{FirewallPolicy, egress_allow, egress_deny}
use yaghan.Daemon.Firewall.Rules.{
  Rule, Target, accept, reject, masquerade, jump, Protocol, any_protocol, udp_53, tcp_53, Endpoint,
  anywhere, single, network, any_rule, add_unique,
}

-- The chains that the daemon writes to: table and name.
pub data Chain : Type 0 where
  filter_forward nat_postrouting filter_input host_forward_chain host_nat_chain : Chain

abbrev pub chain_beq : Chain → Chain → Bool
chain_beq filter_forward filter_forward = true
chain_beq nat_postrouting nat_postrouting = true
chain_beq filter_input filter_input = true
chain_beq host_forward_chain host_forward_chain = true
chain_beq host_nat_chain host_nat_chain = true
chain_beq _ _ = false

-- The rules of each chain, the chains that exist and the indexes of the sandbox sets.
pub record Tables : Type 0 where
  pub rules : Chain → List Rule
  pub exists : Chain → Bool
  pub sets : ℕ → Bool

pub data FirewallError : Type 0 where
  empty_device invalid_subnet invalid_resolver iptables_failed ipset_failed : FirewallError
  empty_namespace invalid_ttl : FirewallError

abbrev pub appended : Chain → Rule → Tables → Tables
appended chain r t = record t {
  rules = λ c. if chain_beq chain c then add_unique (t.rules c) r else t.rules c;
}

abbrev pub with_chain : Chain → Tables → Tables
with_chain chain t = record t { exists = λ c. if chain_beq chain c then true else t.exists c }

abbrev pub with_set : ℕ → Tables → Tables
with_set index t = record t { sets = λ i. if nat_beq index i then true else t.sets i }

-- What a call does: its work, with `true`, or nothing, with `false`.
abbrev Effect : Tables → Tables → Tables × Bool → Type 0
Effect t u p = (p ≡ (u, true)) ⊎ (p ≡ (t, false))

-- The interfaces `adder` and `setMaker`, with the documented behaviour of iptables and ipset.
pub record Kernel : Type 0 where
  pub append_unique_call : Chain → Rule → Tables → Tables × Bool
  pub chain_exists_call : Chain → Tables → Option Bool
  pub new_chain_call : Chain → Tables → Tables × Bool
  pub ensure_set_call : ℕ → Tables → Tables × Bool
  pub append_unique_law :
      (chain : Chain) (r : Rule) (t : Tables)
      → Effect t (appended chain r t) (append_unique_call chain r t)
  pub chain_exists_law :
      (chain : Chain) (t : Tables)
      → (chain_exists_call chain t ≡ some (t.exists chain)) ⊎ (chain_exists_call chain t ≡ none)
  pub new_chain_law :
      (chain : Chain) (t : Tables) → Effect t (with_chain chain t) (new_chain_call chain t)
  pub ensure_set_law :
      (index : ℕ) (t : Tables) → Effect t (with_set index t) (ensure_set_call index t)

-- A sequence of calls that stops at the first error.
abbrev pub Action : Type 0
Action = Tables → Tables × Option FirewallError

infixl 5 ◌>>◌
abbrev pub ◌>>◌ : Action → Action → Action
(m >> n) t = let r = m t in elim r.1 [ none ↦ n r.0 | some e ↦ (r.0, some e) ]

abbrev pub stop : FirewallError → Action
stop e t = (t, some e)

abbrev pub nothing : Action
nothing t = (t, none)

-- NamespaceConfig
pub record NamespaceConfig : Type 0 where
  pub namespace_veth_name : Text
  pub guest_subnet : Prefix
  pub egress : Option FirewallPolicy
  pub sandbox_index : ℕ
  pub resolver_ip : Addr

unfoldable pub sandbox_ip_set_name : ℕ → Text
sandbox_ip_set_name index = codes "yaghan-egress-" ++ decimal index

-- The call of ipset for an entry, run in a namespace; the timeout is in seconds.
pub record SetEntry : Type 0 where
  pub namespace : Text
  pub set_name : Text
  pub address : Addr
  pub timeout : ℕ

pub data EntryCall : Type 0 where
  entry_refused : FirewallError → EntryCall
  entry_added : SetEntry → EntryCall

-- AddSandboxEntry up to the call it makes, for a ttl in nanoseconds that is not negative.
unfoldable pub add_sandbox_entry : Text → ℕ → Addr → ℕ → EntryCall
unfolding sandbox_ip_set_name
add_sandbox_entry ns_name index addr ttl =
    let secs = ttl / 10 ^ 9 in
    if text_beq ns_name []
    then entry_refused empty_namespace
    else if nat_beq ttl 0
    then entry_refused invalid_ttl
    else entry_added (record {
      namespace = ns_name;
      set_name = sandbox_ip_set_name index;
      address = addr;
      timeout = if ltb secs 1 then 1 else secs;
    })

-- Prefix.IsValid() of an IPv4 prefix.
abbrev pub is_valid_prefix : Prefix → Bool
is_valid_prefix p = leb p.bits 32

abbrev pub return_rule : Prefix → Text → Rule
return_rule subnet veth = record any_rule {
  in_iface = veth;
  dst = network subnet;
  established = true;
  target = accept;
}

-- A rule for traffic from the subnet that leaves through the device.
abbrev pub egress_rule : Prefix → Text → Endpoint → Target → Rule
egress_rule subnet veth dst target = record any_rule {
  out_iface = veth;
  src = network subnet;
  dst = dst;
  target = target;
}

abbrev pub resolver_rule : Prefix → Text → Addr → Protocol → Rule
resolver_rule subnet veth resolver proto =
    record (egress_rule subnet veth (single resolver) accept) { protocol = proto }

abbrev pub set_rule : Prefix → Text → ℕ → Rule
set_rule subnet veth index = record (egress_rule subnet veth anywhere accept) {
  match_set = sandbox_ip_set_name index;
}

-- The calls of the interface Firewall.
pub data Setup : Type 0 where
  host_setup : Text → Prefix → Setup
  dns_access_setup : Addr → Prefix → Setup
  namespace_setup : NamespaceConfig → Setup

-- The error of a call that returned `false`.
abbrev pub checked : FirewallError → Tables × Bool → Tables × Option FirewallError
checked e p = (p.0, if p.1 then none else some e)

module _ (kernel : Kernel) where
  unfoldable pub append_unique : Chain → Rule → Action
  append_unique chain r t = checked iptables_failed (kernel.append_unique_call chain r t)

  unfoldable pub ensure_sandbox_set : ℕ → Action
  ensure_sandbox_set index t = checked ipset_failed (kernel.ensure_set_call index t)

  unfoldable pub new_chain : Chain → Action
  new_chain chain t = checked iptables_failed (kernel.new_chain_call chain t)

  unfoldable pub ensure_chain : Chain → Action
  ensure_chain chain t = elim (kernel.chain_exists_call chain t) [
    | none ↦ (t, some iptables_failed)
    | some found ↦ if found then (t, none) else new_chain chain t
  ]

  unfoldable pub ensure_host : Text → Prefix → Action
  ensure_host upstream vm_subnet =
      if text_beq upstream []
      then stop empty_device
      else if not (is_valid_prefix vm_subnet)
      then stop invalid_subnet
      else ensure_chain host_forward_chain
        >> append_unique filter_forward (record any_rule { target = jump (codes "YAGHAN-FORWARD") })
        >> append_unique host_forward_chain (egress_rule vm_subnet upstream anywhere accept)
        >> append_unique host_forward_chain (return_rule vm_subnet upstream)
        >> ensure_chain host_nat_chain
        >> append_unique nat_postrouting
            (record any_rule { target = jump (codes "YAGHAN-POSTROUTING") })
        >> append_unique host_nat_chain (egress_rule vm_subnet upstream anywhere masquerade)

  unfoldable pub ensure_dns_access : Addr → Prefix → Action
  ensure_dns_access resolver vm_subnet =
      if not (is_valid resolver)
      then stop invalid_resolver
      else if not (is_valid_prefix vm_subnet)
      then stop invalid_subnet
      else append_unique filter_input (dns_rule udp_53)
        >> append_unique filter_input (dns_rule tcp_53)
    where
      dns_rule : Protocol → Rule
      dns_rule proto = record any_rule {
        src = network vm_subnet;
        dst = single resolver;
        protocol = proto;
        target = accept;
      }

  -- The loops over the addresses and the blocks of a policy, one rule for each.
  unfoldable pub append_ips : Prefix → Text → Target → List Addr → Action
  append_ips subnet veth target [] = nothing
  append_ips subnet veth target (ip ∷ ips) =
      append_unique filter_forward (egress_rule subnet veth (single ip) target)
      >> append_ips subnet veth target ips

  unfoldable pub append_cidrs : Prefix → Text → Target → List Prefix → Action
  append_cidrs subnet veth target [] = nothing
  append_cidrs subnet veth target (cidr ∷ cidrs) =
      append_unique filter_forward (egress_rule subnet veth (network cidr) target)
      >> append_cidrs subnet veth target cidrs

  unfoldable pub append_resolver_carve_out : Prefix → Text → Addr → Action
  append_resolver_carve_out subnet veth resolver =
      append_unique filter_forward (resolver_rule subnet veth resolver udp_53)
      >> append_unique filter_forward (resolver_rule subnet veth resolver tcp_53)

  -- The dynamic part of an allow policy that names domains.
  unfoldable pub append_domains : NamespaceConfig → List Text → Action
  append_domains c [] = nothing
  append_domains c (domain ∷ domains) =
      if not (is_valid c.resolver_ip)
      then stop invalid_resolver
      else ensure_sandbox_set c.sandbox_index
        >> append_resolver_carve_out c.guest_subnet c.namespace_veth_name c.resolver_ip
        >> append_unique filter_forward
            (set_rule c.guest_subnet c.namespace_veth_name c.sandbox_index)

  unfoldable pub append_egress_accept : Prefix → Text → Action
  append_egress_accept subnet veth =
      append_unique filter_forward (egress_rule subnet veth anywhere accept)

  unfoldable pub append_egress_allow : NamespaceConfig → FirewallPolicy → Action
  append_egress_allow c p =
      append_ips c.guest_subnet c.namespace_veth_name accept p.ips
      >> append_cidrs c.guest_subnet c.namespace_veth_name accept p.cidrs
      >> append_domains c p.domains
      >> append_unique filter_forward
          (egress_rule c.guest_subnet c.namespace_veth_name anywhere reject)

  unfoldable pub append_egress_deny : NamespaceConfig → FirewallPolicy → Action
  append_egress_deny c p =
      append_ips c.guest_subnet c.namespace_veth_name reject p.ips
      >> append_cidrs c.guest_subnet c.namespace_veth_name reject p.cidrs
      >> append_egress_accept c.guest_subnet c.namespace_veth_name

  -- The `switch` on the policy.
  unfoldable pub append_egress : NamespaceConfig → Option FirewallPolicy → Action
  append_egress c none = append_egress_accept c.guest_subnet c.namespace_veth_name
  append_egress c (some p) = elim p.mode [
    | egress_allow ↦ append_egress_allow c p
    | egress_deny ↦ append_egress_deny c p
  ]

  unfoldable pub configure_namespace : NamespaceConfig → Action
  configure_namespace c =
      if text_beq c.namespace_veth_name []
      then stop empty_device
      else if not (is_valid_prefix c.guest_subnet)
      then stop invalid_subnet
      else append_unique filter_forward (return_rule c.guest_subnet c.namespace_veth_name)
        >> append_egress c c.egress
        >> append_unique nat_postrouting
            (egress_rule c.guest_subnet c.namespace_veth_name anywhere masquerade)

  unfoldable pub run_setup : Setup → Action
  run_setup (host_setup upstream vm_subnet) = ensure_host upstream vm_subnet
  run_setup (dns_access_setup resolver vm_subnet) = ensure_dns_access resolver vm_subnet
  run_setup (namespace_setup c) = configure_namespace c
