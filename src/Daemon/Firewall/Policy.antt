-- ===== src/Daemon/Firewall/Policy.antt =====
-- The egress policy of daemon/pkg/network/firewall/firewall.go read as a set of destinations, and
-- what one rule of iptables.go decides on a packet.
use yaghan.Base.{
  ◌≡◌, refl, Bool, true, false, not, ◌&&◌, ◌||◌, List, [], ◌∷◌, Option, none, some, if◌then◌else◌,
}
use yaghan.Base.Text.{Text, text_beq}
use yaghan.Net.Addr.{Addr, addr_beq}
use yaghan.Net.Allocator.{Prefix}
use yaghan.Daemon.Egress.{FirewallPolicy, egress_allow, egress_deny}
use yaghan.Daemon.Firewall.Rules.{
  Target, accept, reject, Protocol, udp_53, tcp_53, protocol_beq, Endpoint,
}
use yaghan.Daemon.Firewall.Verdict.{
  Packet, contains_addr, matches_iface, matches_endpoint, matches_protocol, matches_set,
  matches_rule, verdict, or_else,
}
use yaghan.Daemon.Firewall.{NamespaceConfig, sandbox_ip_set_name, return_rule, egress_rule}

abbrev pub any_ip : List Addr → Addr → Bool
any_ip [] a = false
any_ip (ip ∷ ips) a = addr_beq ip a || any_ip ips a

abbrev pub any_cidr : List Prefix → Addr → Bool
any_cidr [] a = false
any_cidr (cidr ∷ cidrs) a = contains_addr cidr a || any_cidr cidrs a

-- The destinations that a policy names by their address.
abbrev pub is_listed : FirewallPolicy → Addr → Bool
is_listed policy a = any_ip policy.ips a || any_cidr policy.cidrs a

-- A reply that comes back to the guest.
abbrev pub returns : NamespaceConfig → Packet → Bool
returns c p =
    text_beq c.namespace_veth_name p.in_iface && contains_addr c.guest_subnet p.dst && p.established

-- A packet that the guest sends out.
abbrev pub leaves : NamespaceConfig → Packet → Bool
leaves c p = text_beq c.namespace_veth_name p.out_iface && contains_addr c.guest_subnet p.src

abbrev pub gate : Bool → Target → Option Target
gate b target = if b then some target else none

module _ (in_set : Text → Addr → Bool) where
  -- What the domains of a policy open: the resolver, and the addresses that its answers recorded.
  abbrev pub via_domains : NamespaceConfig → List Text → Packet → Bool
  via_domains c [] p = false
  via_domains c (domain ∷ domains) p =
      addr_beq c.resolver_ip p.dst
        && (protocol_beq udp_53 p.service || protocol_beq tcp_53 p.service)
      || in_set (sandbox_ip_set_name c.sandbox_index) p.dst

  abbrev pub permits : NamespaceConfig → Option FirewallPolicy → Packet → Bool
  permits c none p = true
  permits c (some policy) p = elim policy.mode [
    | egress_allow ↦ is_listed policy p.dst || via_domains c policy.domains p
    | egress_deny ↦ not (is_listed policy p.dst)
  ]

  unfoldable pub namespace_verdict : NamespaceConfig → Packet → Option Target
  namespace_verdict c p =
      if returns c p
      then some accept
      else if leaves c p
      then some (if permits c c.egress p then accept else reject)
      else none

  pub gate_or :
      (l a b : Bool) (target : Target)
      → or_else in_set (gate (l && a) target) (gate (l && b) target) ≡ gate (l && (a || b)) target
  gate_or true true b target = refl
  gate_or true false b target = refl
  gate_or false a b target = refl

  module _ (c : NamespaceConfig) (p : Packet)
      (named : text_beq c.namespace_veth_name [] ≡ false) where
    device : (d : Text) → matches_iface c.namespace_veth_name d ≡ text_beq c.namespace_veth_name d
    unfolding text_beq
    device d = go c.namespace_veth_name named
      where
        go : (v : Text) → text_beq v [] ≡ false → matches_iface v d ≡ text_beq v d
        go [] h = cc
        go (x ∷ v) h = refl

    pub return_rule-verdict :
        verdict in_set (return_rule c.guest_subnet c.namespace_veth_name) p
        ≡ gate (returns c p) accept
    unfolding verdict matches_rule
    return_rule-verdict = rw (device p.in_iface) (
        conj (text_beq c.namespace_veth_name p.in_iface) (contains_addr c.guest_subnet p.dst)
          p.established)
      where
        conj :
            (a b e : Bool)
            → (if a && true && true && b && true && (false || e) && true then some accept else none)
              ≡ gate (a && b && e) accept
        conj true true true = refl
        conj true true false = refl
        conj true false e = refl
        conj false b e = refl

    -- A rule for outgoing traffic: the protocol and the set may narrow it.
    pub outgoing :
        (dst : Endpoint) (proto : Protocol) (set : Text) (target : Target)
        → verdict in_set
            (record (egress_rule c.guest_subnet c.namespace_veth_name dst target) {
              protocol = proto;
              match_set = set;
            })
            p
          ≡ gate
              (leaves c p
                && (matches_endpoint dst p.dst
                    && matches_protocol proto p.service
                    && matches_set in_set set p.dst))
              target
    unfolding verdict matches_rule
    outgoing dst proto set target = rw (device p.out_iface) (
        conj (text_beq c.namespace_veth_name p.out_iface) (contains_addr c.guest_subnet p.src)
          (matches_endpoint dst p.dst) (matches_protocol proto p.service)
          (matches_set in_set set p.dst))
      where
        conj :
            (a b d e f : Bool)
            → gate (a && b && d && e && true && f) target ≡ gate ((a && b) && (d && e && f)) target
        conj true true true true f = refl
        conj true true true false f = refl
        conj true true false e f = refl
        conj true false d e f = refl
        conj false b d e f = refl
