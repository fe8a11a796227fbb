-- ===== src/Daemon/Firewall/Tests.antt =====
-- The namespace of a sandbox that may reach one address, one block and one domain.
use yaghan.Base.{◌≡◌, refl, Bool, true, false, [], ◌∷◌, none, some, inl}
use yaghan.Base.Text.{Text, codes, text_beq}
use yaghan.Net.Addr.{Addr, v4}
use yaghan.Net.Allocator.{namespace_veth_name, Prefix}
use yaghan.Daemon.Egress.{FirewallPolicy, egress_allow}
use yaghan.Daemon.Firewall.Rules.{udp_53, accept}
use yaghan.Daemon.Firewall.Verdict.{Packet, decide}
use yaghan.Daemon.Firewall.Policy.{namespace_verdict}
use yaghan.Daemon.Firewall.Egress.{configure_namespace-decides}
use yaghan.Daemon.Firewall.{
  Tables, Kernel, appended, with_chain, with_set, NamespaceConfig, configure_namespace,
  append_unique, append_egress, append_egress_allow, append_ips, append_cidrs, append_domains,
  append_resolver_carve_out, ensure_sandbox_set, filter_forward, run_setup, host_setup, ensure_host,
  ensure_chain, new_chain,
}

abbrev policy : FirewallPolicy
policy = record {
  mode = egress_allow;
  ips = v4 0x08080808 ∷ [];
  cidrs = record { addr = 0xc0a80000; bits = 16 } ∷ [];
  domains = codes "example.com" ∷ [];
}

abbrev config : NamespaceConfig
config = record {
  namespace_veth_name = namespace_veth_name;
  guest_subnet = record { addr = 0xac100000; bits = 30 };
  egress = some policy;
  sandbox_index = 7;
  resolver_ip = v4 0xa9fe0001;
}

abbrev fresh : Tables
fresh = record { rules = λ c. []; exists = λ c. false; sets = λ i. false }

abbrev always : Kernel
always = record {
  append_unique_call = λ chain r t. (appended chain r t, true);
  chain_exists_call = λ chain t. some (t.exists chain);
  new_chain_call = λ chain t. (with_chain chain t, true);
  ensure_set_call = λ i t. (with_set i t, true);
  append_unique_law = λ chain r t. inl refl;
  chain_exists_law = λ chain t. inl refl;
  new_chain_law = λ chain t. inl refl;
  ensure_set_law = λ i t. inl refl;
}

-- A query to the resolver.
abbrev query : Packet
query = record {
  in_iface = codes "vm-tap0";
  out_iface = namespace_veth_name;
  src = v4 0xac100002;
  dst = v4 0xa9fe0001;
  service = udp_53;
  established = false;
}

abbrev no_answers : Text → Addr → Bool
no_answers name a = false

configured : (configure_namespace always config fresh).1 ≡ none
unfolding configure_namespace append_unique append_egress append_egress_allow append_ips
    append_cidrs append_domains append_resolver_carve_out ensure_sandbox_set text_beq
configured = refl

query_accepted : namespace_verdict no_answers config query ≡ some accept
unfolding namespace_verdict text_beq
query_accepted = refl

configure_namespace-decides_example :
    decide no_answers ((configure_namespace always config fresh).0.rules filter_forward) query
    ≡ namespace_verdict no_answers config query
configure_namespace-decides_example =
    configure_namespace-decides no_answers always config fresh query refl configured

abbrev subnet : Prefix
subnet = record { addr = 0x0a000000; bits = 16 }

host_ready : (run_setup always (host_setup (codes "eth0") subnet) fresh).1 ≡ none
unfolding run_setup ensure_host ensure_chain new_chain append_unique text_beq
host_ready = refl
