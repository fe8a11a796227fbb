-- ===== src/Daemon/Firewall/Additions.antt =====
-- What the rules that daemon/pkg/network/firewall/iptables.go appends for a policy's destinations decide.
use yaghan.Base.{
  ◌≡◌, refl, ◌∙◌, Bool, true, false, ◌&&◌, ◌||◌, List, [], ◌∷◌, Option, none, Bool-cases, inl, inr,
}
use mathlib.Core.Path.{subst}
use yaghan.Base.Text.{Text, text_beq}
use yaghan.Net.Addr.{Addr, addr_beq, is_valid}
use yaghan.Net.Allocator.{Prefix}
use yaghan.Daemon.Egress.{FirewallPolicy}
use yaghan.Daemon.Firewall.Rules.{
  Target, accept, Protocol, any_protocol, udp_53, tcp_53, protocol_beq, Endpoint, anywhere, single,
  network,
}
use yaghan.Daemon.Firewall.Verdict.{
  Packet, matches_endpoint, matches_protocol, matches_set, Decides, Decides-nothing,
  Decides-forward, Decides-set, Decides-seq, Decides-stop,
}
use yaghan.Daemon.Firewall.{
  invalid_resolver, nothing, filter_forward, Kernel, Action, ◌>>◌, NamespaceConfig,
  sandbox_ip_set_name, egress_rule, append_unique, append_ips, append_cidrs, append_domains,
  append_resolver_carve_out,
}
use yaghan.Daemon.Firewall.Policy.{
  any_ip, any_cidr, is_listed, leaves, gate, via_domains, gate_or, outgoing,
}

module _ (in_set : Text → Addr → Bool) where
  module _ (kernel : Kernel) (c : NamespaceConfig) (p : Packet)
      (named : text_beq c.namespace_veth_name [] ≡ false) where
    unfoldable pub Adds : Action → Bool → Target → Type 0
    Adds m b target = Decides in_set kernel p m (gate (leaves c p && b) target)

    Adds-same :
        (m : Action) {a b : Bool} (target : Target) → a ≡ b → Adds m a target → Adds m b target
    Adds-same m target e h = subst (λ b. Adds m b target) e h

    pub Decides-same :
        (m : Action) {v w : Option Target}
        → v ≡ w
        → Decides in_set kernel p m v
        → Decides in_set kernel p m w
    Decides-same m e h = subst (Decides in_set kernel p m) e h

    Adds-none :
        (m : Action) (target : Target) → Decides in_set kernel p m none → Adds m false target
    unfolding Adds
    Adds-none m target h = Decides-same m (none_gate (leaves c p)) h
      where
        none_gate : (l : Bool) → none ≡ gate (l && false) target
        none_gate true = refl
        none_gate false = refl

    Adds-outgoing :
        (dst : Endpoint) (proto : Protocol) (set : Text) (target : Target)
        → Adds
            (append_unique kernel filter_forward
              (record (egress_rule c.guest_subnet c.namespace_veth_name dst target) {
                protocol = proto;
                match_set = set;
              }))
            (matches_endpoint dst p.dst
              && matches_protocol proto p.service
              && matches_set in_set set p.dst)
            target
    unfolding Adds
    Adds-outgoing dst proto set target =
        subst
          (Decides in_set kernel p (
            append_unique kernel filter_forward
              (record (egress_rule c.guest_subnet c.namespace_veth_name dst target) {
                protocol = proto;
                match_set = set;
              })))
          (outgoing in_set c p named dst proto set target) (Decides-forward in_set kernel p _)

    pub and_true : (a : Bool) → (a && true) ≡ a
    and_true true = refl
    and_true false = refl

    pub Adds-endpoint :
        (dst : Endpoint) (target : Target)
        → Adds
            (append_unique kernel filter_forward
              (egress_rule c.guest_subnet c.namespace_veth_name dst target))
            (matches_endpoint dst p.dst)
            target
    Adds-endpoint dst target =
        Adds-same _ target
          (and_true (matches_endpoint dst p.dst && true) ∙ and_true (matches_endpoint dst p.dst))
          (Adds-outgoing dst any_protocol [] target)

    pub Adds-seq :
        (m n : Action) (a b : Bool) (target : Target)
        → Adds m a target
        → Adds n b target
        → Adds (m >> n) (a || b) target
    unfolding Adds
    Adds-seq m n a b target hm hn =
        subst (Decides in_set kernel p (m >> n)) (gate_or in_set (leaves c p) a b target)
          (Decides-seq in_set kernel p m n _ _ hm hn)

    Adds-append_ips :
        (target : Target) (ips : List Addr)
        → Adds
            (append_ips kernel c.guest_subnet c.namespace_veth_name target ips)
            (any_ip ips p.dst)
            target
    unfolding append_ips
    Adds-append_ips target [] = Adds-none nothing target (Decides-nothing in_set kernel p)
    Adds-append_ips target (ip ∷ ips) =
        Adds-seq _ _ _ _ target (Adds-endpoint (single ip) target) (Adds-append_ips target ips)

    Adds-append_cidrs :
        (target : Target) (cidrs : List Prefix)
        → Adds
            (append_cidrs kernel c.guest_subnet c.namespace_veth_name target cidrs)
            (any_cidr cidrs p.dst)
            target
    unfolding append_cidrs
    Adds-append_cidrs target [] = Adds-none nothing target (Decides-nothing in_set kernel p)
    Adds-append_cidrs target (cidr ∷ cidrs) =
        Adds-seq _ _ _ _ target (Adds-endpoint (network cidr) target)
          (Adds-append_cidrs target cidrs)

    Adds-append_resolver_carve_out :
        Adds
          (append_resolver_carve_out kernel c.guest_subnet c.namespace_veth_name c.resolver_ip)
          (addr_beq c.resolver_ip p.dst
            && (protocol_beq udp_53 p.service || protocol_beq tcp_53 p.service))
          accept
    unfolding append_resolver_carve_out
    Adds-append_resolver_carve_out =
        Adds-same _ accept
          (distribute (addr_beq c.resolver_ip p.dst) (protocol_beq udp_53 p.service)
            (protocol_beq tcp_53 p.service))
          (Adds-seq _ _ _ _ accept (Adds-outgoing (single c.resolver_ip) udp_53 [] accept)
            (Adds-outgoing (single c.resolver_ip) tcp_53 [] accept))
      where
        distribute : (a u t : Bool) → (a && u && true || a && t && true) ≡ (a && (u || t))
        distribute true true t = refl
        distribute true false true = refl
        distribute true false false = refl
        distribute false u t = refl

    pub Adds-append_domains :
        (domains : List Text)
        → Adds (append_domains kernel c domains) (via_domains in_set c domains p) accept
    unfolding append_domains sandbox_ip_set_name Adds
    Adds-append_domains [] = Adds-none nothing accept (Decides-nothing in_set kernel p)
    Adds-append_domains (domain ∷ domains) = elim (Bool-cases (is_valid c.resolver_ip)) [
      | inl e ↦ rw e (
          Adds-seq _ _ _ _ accept
            (Adds-seq _ _ _ _ accept
              (Adds-none _ accept (Decides-set in_set kernel p c.sandbox_index))
              Adds-append_resolver_carve_out)
            (Adds-outgoing anywhere any_protocol (sandbox_ip_set_name c.sandbox_index) accept))
      | inr e ↦ rw e (Decides-stop in_set kernel p invalid_resolver _)
    ]

    pub Adds-listed :
        (policy : FirewallPolicy) (target : Target)
        → Adds
            (append_ips kernel c.guest_subnet c.namespace_veth_name target policy.ips
              >> append_cidrs kernel c.guest_subnet c.namespace_veth_name target policy.cidrs)
            (is_listed policy p.dst)
            target
    Adds-listed policy target =
        Adds-seq _ _ _ _ target (Adds-append_ips target policy.ips)
          (Adds-append_cidrs target policy.cidrs)
