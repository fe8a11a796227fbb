-- ===== src/Daemon/Firewall/Repeat.antt =====
-- Setting up the rules of daemon/pkg/network/firewall/iptables.go a second time, as a daemon that
-- restarts does.
use yaghan.Base.{ℕ, ◌≡◌, refl, List, [], ◌∷◌, Option, none, some, Bool-cases, inl, inr}
use yaghan.Base.Text.{Text, text_beq}
use yaghan.Net.Addr.{Addr, is_valid}
use yaghan.Net.Allocator.{Prefix}
use yaghan.Daemon.Egress.{FirewallPolicy, egress_allow, egress_deny, FirewallMode}
use yaghan.Daemon.Firewall.Rules.{Rule, Target}
use yaghan.Daemon.Firewall.{
  Chain, filter_forward, nat_postrouting, filter_input, host_forward_chain, host_nat_chain, Tables,
  Kernel, empty_device, invalid_subnet, invalid_resolver, NamespaceConfig, is_valid_prefix,
  append_unique, ensure_sandbox_set, ensure_chain, ensure_host, ensure_dns_access, append_ips,
  append_cidrs, append_domains, append_resolver_carve_out, append_egress, append_egress_accept,
  append_egress_allow, append_egress_deny, configure_namespace, Setup, host_setup, dns_access_setup,
  namespace_setup, run_setup,
}
use yaghan.Daemon.Firewall.Calls.{
  Extends, Settles, Settles-seq, Settles-nothing, Settles-stop, append_unique-Extends,
  append_unique-adds, append_unique-same, ensure_chain-Extends, ensure_chain-adds,
  ensure_chain-same, ensure_sandbox_set-Extends, ensure_sandbox_set-adds, ensure_sandbox_set-same,
}

module _ (first second : Kernel) where
  Settles-append_unique :
      (chain : Chain) (r : Rule)
      → Settles (append_unique first chain r) (append_unique second chain r)
  unfolding Settles Extends
  Settles-append_unique chain r = (
    append_unique-Extends first chain r,
    λ t u h x.
        append_unique-same second chain r u (x.0 chain r (append_unique-adds first chain r t h)),
  )

  Settles-ensure_chain :
      (chain : Chain) → Settles (ensure_chain first chain) (ensure_chain second chain)
  unfolding Settles Extends
  Settles-ensure_chain chain = (
    ensure_chain-Extends first chain,
    λ t u h x. ensure_chain-same second chain u (x.1 chain (ensure_chain-adds first chain t h)),
  )

  Settles-ensure_sandbox_set :
      (i : ℕ) → Settles (ensure_sandbox_set first i) (ensure_sandbox_set second i)
  unfolding Settles Extends
  Settles-ensure_sandbox_set i = (
    ensure_sandbox_set-Extends first i,
    λ t u h x. ensure_sandbox_set-same second i u (x.2 i (ensure_sandbox_set-adds first i t h)),
  )

  Settles-append_ips :
      (subnet : Prefix) (veth : Text) (target : Target) (ips : List Addr)
      → Settles (append_ips first subnet veth target ips) (append_ips second subnet veth target ips)
  unfolding append_ips
  Settles-append_ips subnet veth target [] = Settles-nothing
  Settles-append_ips subnet veth target (ip ∷ ips) =
      Settles-seq _ _ _ _ (Settles-append_unique filter_forward _)
        (Settles-append_ips subnet veth target ips)

  Settles-append_cidrs :
      (subnet : Prefix) (veth : Text) (target : Target) (cidrs : List Prefix)
      → Settles
          (append_cidrs first subnet veth target cidrs)
          (append_cidrs second subnet veth target cidrs)
  unfolding append_cidrs
  Settles-append_cidrs subnet veth target [] = Settles-nothing
  Settles-append_cidrs subnet veth target (cidr ∷ cidrs) =
      Settles-seq _ _ _ _ (Settles-append_unique filter_forward _)
        (Settles-append_cidrs subnet veth target cidrs)

  Settles-append_domains :
      (c : NamespaceConfig) (domains : List Text)
      → Settles (append_domains first c domains) (append_domains second c domains)
  unfolding append_domains append_resolver_carve_out
  Settles-append_domains c [] = Settles-nothing
  Settles-append_domains c (domain ∷ domains) = elim (Bool-cases (is_valid c.resolver_ip)) [
    | inl e ↦ rw e (
        Settles-seq _ _ _ _
          (Settles-seq _ _ _ _ (Settles-ensure_sandbox_set c.sandbox_index) (
            Settles-seq _ _ _ _ (Settles-append_unique filter_forward _)
              (Settles-append_unique filter_forward _)))
          (Settles-append_unique filter_forward _))
    | inr e ↦ rw e (Settles-stop invalid_resolver)
  ]

  Settles-append_egress :
      (c : NamespaceConfig) (policy : Option FirewallPolicy)
      → Settles (append_egress first c policy) (append_egress second c policy)
  unfolding append_egress append_egress_accept append_egress_allow append_egress_deny
  Settles-append_egress c none = Settles-append_unique filter_forward _
  Settles-append_egress c (some policy) = by_mode policy.mode refl
    where
      by_mode :
          (mode : FirewallMode)
          → policy.mode ≡ mode
          → Settles (append_egress first c (some policy)) (append_egress second c (some policy))
      by_mode egress_allow e = rw e (
          Settles-seq _ _ _ _
            (Settles-seq _ _ _ _
              (Settles-seq _ _ _ _ (Settles-append_ips _ _ _ policy.ips)
                (Settles-append_cidrs _ _ _ policy.cidrs))
              (Settles-append_domains c policy.domains))
            (Settles-append_unique filter_forward _))
      by_mode egress_deny e = rw e (
          Settles-seq _ _ _ _
            (Settles-seq _ _ _ _ (Settles-append_ips _ _ _ policy.ips)
              (Settles-append_cidrs _ _ _ policy.cidrs))
            (Settles-append_unique filter_forward _))

  Settles-configure_namespace :
      (c : NamespaceConfig) → Settles (configure_namespace first c) (configure_namespace second c)
  unfolding configure_namespace
  Settles-configure_namespace c = elim (Bool-cases (text_beq c.namespace_veth_name [])) [
    | inl e ↦ rw e (Settles-stop empty_device)
    | inr named ↦ elim (Bool-cases (is_valid_prefix c.guest_subnet)) [
      | inl valid ↦
          rw (named, valid)
            (Settles-seq _ _ _ _
              (Settles-seq _ _ _ _ (Settles-append_unique filter_forward _)
                (Settles-append_egress c c.egress))
              (Settles-append_unique nat_postrouting _))
      | inr bad ↦ rw (named, bad) (Settles-stop invalid_subnet)
    ]
  ]

  Settles-ensure_host :
      (upstream : Text) (vm_subnet : Prefix)
      → Settles (ensure_host first upstream vm_subnet) (ensure_host second upstream vm_subnet)
  unfolding ensure_host
  Settles-ensure_host upstream vm_subnet = elim (Bool-cases (text_beq upstream [])) [
    | inl e ↦ rw e (Settles-stop empty_device)
    | inr named ↦ elim (Bool-cases (is_valid_prefix vm_subnet)) [
      | inl valid ↦
          rw (named, valid)
            (Settles-seq _ _ _ _
              (Settles-seq _ _ _ _
                (Settles-seq _ _ _ _
                  (Settles-seq _ _ _ _
                    (Settles-seq _ _ _ _
                      (Settles-seq _ _ _ _ (Settles-ensure_chain host_forward_chain)
                        (Settles-append_unique filter_forward _))
                      (Settles-append_unique host_forward_chain _))
                    (Settles-append_unique host_forward_chain _))
                  (Settles-ensure_chain host_nat_chain))
                (Settles-append_unique nat_postrouting _))
              (Settles-append_unique host_nat_chain _))
      | inr bad ↦ rw (named, bad) (Settles-stop invalid_subnet)
    ]
  ]

  Settles-ensure_dns_access :
      (resolver : Addr) (vm_subnet : Prefix)
      → Settles
          (ensure_dns_access first resolver vm_subnet)
          (ensure_dns_access second resolver vm_subnet)
  unfolding ensure_dns_access
  Settles-ensure_dns_access resolver vm_subnet = elim (Bool-cases (is_valid resolver)) [
    | inl known ↦ elim (Bool-cases (is_valid_prefix vm_subnet)) [
      | inl valid ↦
          rw (known, valid)
            (Settles-seq _ _ _ _ (Settles-append_unique filter_input _)
              (Settles-append_unique filter_input _))
      | inr bad ↦ rw (known, bad) (Settles-stop invalid_subnet)
    ]
    | inr e ↦ rw e (Settles-stop invalid_resolver)
  ]

Settles-run_setup :
    (first second : Kernel) (s : Setup) → Settles (run_setup first s) (run_setup second s)
unfolding run_setup
Settles-run_setup first second (host_setup upstream vm_subnet) =
    Settles-ensure_host first second upstream vm_subnet
Settles-run_setup first second (dns_access_setup resolver vm_subnet) =
    Settles-ensure_dns_access first second resolver vm_subnet
Settles-run_setup first second (namespace_setup c) = Settles-configure_namespace first second c

-- Setting up again after a setup that returned no error changes nothing: on any tables that still
-- hold every rule, chain and set that the first run of EnsureHost, EnsureDNSAccess or
-- ConfigureNamespace left, a second run of the same function with the same arguments leaves the
-- tables as they are, also where a call of the second run fails.
pub run_setup_again :
    (first second : Kernel) (s : Setup) (t u : Tables)
    → (run_setup first s t).1 ≡ none
    → Extends (run_setup first s t).0 u
    → (run_setup second s u).0 ≡ u
unfolding Settles
run_setup_again first second s t u = (Settles-run_setup first second s).1 t u
