-- ===== src/Daemon/Firewall/Verdict.antt =====
-- What a chain of daemon/pkg/network/firewall/iptables.go decides on a packet, after the manual of
-- iptables: the first rule whose matches all hold, and the same for the rules that an action adds.
use yaghan.Base.{
  ℕ, ◌-◌, ◌/◌, ◌^◌, ◌≡◌, refl, sym, ap, ◌∙◌, Bool, true, false, not, ◌&&◌, ◌||◌, List, [], ◌∷◌,
  ◌++◌, Option, none, some, if◌then◌else◌, nat_beq, arith, Bool-cases, inl, inr,
}
use yaghan.Base.Text.{Text, text_beq}
use yaghan.Net.Addr.{Addr, v4, addr_beq}
use yaghan.Net.Allocator.{Prefix}
use yaghan.Daemon.Firewall.Rules.{
  Rule, Target, Protocol, any_protocol, protocol_beq, Endpoint, anywhere, single, network,
  contains_rule, add_unique, rule_beq, rule_beq-same,
}
use yaghan.Daemon.Firewall.Sequence.{seq-succeeds, append_unique-succeeds, ensure_sandbox_set-rules}
use yaghan.Daemon.Firewall.{
  FirewallError, filter_forward, nat_postrouting, Tables, Action, ◌>>◌, nothing, stop,
  append_unique, ensure_sandbox_set, Kernel,
}

-- A packet on its way through the kernel; `service` is `any_protocol` for all traffic but DNS.
pub record Packet : Type 0 where
  pub in_iface : Text
  pub out_iface : Text
  pub src : Addr
  pub dst : Addr
  pub service : Protocol
  pub established : Bool

-- Whether an address is in an IPv4 prefix.
abbrev pub contains_addr : Prefix → Addr → Bool
contains_addr p (v4 n) = nat_beq (n / 2 ^ (32 - p.bits)) (p.addr / 2 ^ (32 - p.bits))
contains_addr p _ = false

abbrev pub matches_iface : Text → Text → Bool
matches_iface [] device = true
matches_iface (c ∷ s) device = text_beq (c ∷ s) device

abbrev pub matches_endpoint : Endpoint → Addr → Bool
matches_endpoint anywhere a = true
matches_endpoint (single b) a = addr_beq b a
matches_endpoint (network p) a = contains_addr p a

abbrev pub matches_protocol : Protocol → Protocol → Bool
matches_protocol any_protocol s = true
matches_protocol proto s = protocol_beq proto s

-- The sets of the namespace: whether the set of a name holds an address.
module _ (in_set : Text → Addr → Bool) where
  abbrev pub matches_set : Text → Addr → Bool
  matches_set [] a = true
  matches_set (c ∷ s) a = in_set (c ∷ s) a

  unfoldable pub matches_rule : Rule → Packet → Bool
  matches_rule r p =
      matches_iface r.in_iface p.in_iface
      && matches_iface r.out_iface p.out_iface
      && matches_endpoint r.src p.src
      && matches_endpoint r.dst p.dst
      && matches_protocol r.protocol p.service
      && (not r.established || p.established)
      && matches_set r.match_set p.dst

  unfoldable pub verdict : Rule → Packet → Option Target
  verdict r p = if matches_rule r p then some r.target else none

  abbrev pub or_else : Option Target → Option Target → Option Target
  or_else none w = w
  or_else (some v) w = some v

  -- The target of the first rule that matches.
  unfoldable pub decide : List Rule → Packet → Option Target
  decide [] p = none
  decide (r ∷ rs) p = or_else (verdict r p) (decide rs p)

  or_else_assoc : (u v w : Option Target) → or_else (or_else u v) w ≡ or_else u (or_else v w)
  or_else_assoc none v w = refl
  or_else_assoc (some u) v w = refl

  or_else-none : (u : Option Target) → or_else u none ≡ u
  or_else-none none = refl
  or_else-none (some u) = refl

  or_else_idem : (u v : Option Target) → or_else (or_else u v) u ≡ or_else u v
  or_else_idem none none = refl
  or_else_idem none (some v) = refl
  or_else_idem (some u) v = refl

  decide-append :
      (rs : List Rule) (r : Rule) (p : Packet)
      → decide (rs ++ r ∷ []) p ≡ or_else (decide rs p) (verdict r p)
  unfolding decide
  decide-append [] r p = or_else-none (verdict r p)
  decide-append (s ∷ rs) r p =
      rw (decide-append rs r p) (sym (or_else_assoc (verdict s p) (decide rs p) (verdict r p)))

  or_else_absorb : (u v w : Option Target) → or_else v w ≡ v → or_else (or_else u v) w ≡ or_else u v
  or_else_absorb none v w e = e
  or_else_absorb (some u) v w e = refl

  -- A rule that the chain has already decides nothing more.
  decide-contains_rule :
      (rs : List Rule) (r : Rule) (p : Packet)
      → contains_rule rs r ≡ true
      → or_else (decide rs p) (verdict r p) ≡ decide rs p
  unfolding decide contains_rule
  decide-contains_rule [] r p h = cc
  decide-contains_rule (s ∷ rs) r p h = elim (Bool-cases (rule_beq s r)) [
    | inl e ↦ rw (rule_beq-same s r e) (first (verdict r p) (decide rs p))
    | inr e ↦
        or_else_absorb (verdict s p) (decide rs p) (verdict r p)
          (decide-contains_rule rs r p (ground arith))
  ]
    where
      first : (u v : Option Target) → or_else (or_else u v) u ≡ or_else u v
      first u v = or_else_idem u v

  decide-add_unique :
      (rs : List Rule) (r : Rule) (p : Packet)
      → decide (add_unique rs r) p ≡ or_else (decide rs p) (verdict r p)
  unfolding add_unique
  decide-add_unique rs r p = elim (Bool-cases (contains_rule rs r)) [
    | inl e ↦ rw e (sym (decide-contains_rule rs r p e))
    | inr e ↦ rw e (decide-append rs r p)
  ]

  -- An action that kernel adds rules to FORWARD that decide `v` on the packet.
  module _ (kernel : Kernel) (p : Packet) where
    unfoldable pub Decides : Action → Option Target → Type 0
    Decides m v =
        (t : Tables)
        → (m t).1 ≡ none
        → decide ((m t).0.rules filter_forward) p ≡ or_else (decide (t.rules filter_forward) p) v

    pub Decides-nothing : Decides nothing none
    unfolding Decides
    Decides-nothing t h = sym (or_else-none (decide (t.rules filter_forward) p))

    pub Decides-stop : (e : FirewallError) (v : Option Target) → Decides (stop e) v
    unfolding Decides
    Decides-stop e v t h = ground arith

    pub Decides-forward : (r : Rule) → Decides (append_unique kernel filter_forward r) (verdict r p)
    unfolding Decides
    Decides-forward r t h =
        rw (append_unique-succeeds kernel filter_forward r t h)
          (decide-add_unique (t.rules filter_forward) r p)

    pub Decides-postrouting : (r : Rule) → Decides (append_unique kernel nat_postrouting r) none
    unfolding Decides
    Decides-postrouting r t h =
        rw (append_unique-succeeds kernel nat_postrouting r t h)
          (sym (or_else-none (decide (t.rules filter_forward) p)))

    pub Decides-set : (i : ℕ) → Decides (ensure_sandbox_set kernel i) none
    unfolding Decides
    Decides-set i t h =
        rw (ensure_sandbox_set-rules kernel i t)
          (sym (or_else-none (decide (t.rules filter_forward) p)))

    pub Decides-seq :
        (m n : Action) (v w : Option Target)
        → Decides m v
        → Decides n w
        → Decides (m >> n) (or_else v w)
    unfolding Decides
    Decides-seq m n v w hm hn t h =
        let (first, same) = seq-succeeds m n t h in
        simp same (
          hn (m t).0 (ap (λ r. r.1) (sym same) ∙ h)
          ∙ ap (λ d. or_else d w) (hm t first)
          ∙ or_else_assoc (decide (t.rules filter_forward) p) v w)
