-- ===== src/Daemon/Reconciler/Enforcement.antt =====
-- The reconciler's boot and the DNS responder together: the policy of a sandbox is enforced from its
-- first query on (daemon/pkg/reconciler/reconciler.go, daemon/pkg/dns/handler.go).
use yaghan.Base.{List, Option}
use yaghan.Base.Text.{Text, text_eq}
use yaghan.Proto.{EgressRules}
use yaghan.Net.Addr.{Addr, addr_eq}
use yaghan.Net.Allocator.{NamespaceHandle}
use yaghan.Dns.Matcher.{DomainMatcher}
use yaghan.Dns.PolicyStore.{PolicyStore, SandboxDnsPolicy}
use yaghan.Dns.Handler.{Handler}
use yaghan.Daemon.Egress.{dns_mode}
use yaghan.Daemon.Host.{Host}
use yaghan.Daemon.Reconciler.{Daemon}

-- The policy of a sandbox with these rules and compiled patterns.
abbrev pub policy_for : NamespaceHandle → EgressRules → List DomainMatcher → SandboxDnsPolicy
policy_for nsh rules ms = record {
  index = nsh.index;
  namespace_name = nsh.namespace_name;
  mode = dns_mode rules;
  matchers = ms;
}
