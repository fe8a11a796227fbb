-- ===== src/Daemon/Firewall/Egress.antt =====
-- What the FORWARD chain of a sandbox's namespace decides once ConfigureNamespace of
-- daemon/pkg/network/firewall/iptables.go has returned without an error, against the policy read as
-- a set of destinations.
use yaghan.Base.{
  ◌≡◌, refl, ap, ◌∙◌, Bool, true, false, not, ◌&&◌, ◌||◌, [], Option, none, some, if◌then◌else◌,
  Bool-cases, inl, inr,
}
use yaghan.Base.Text.{Text, text_beq}
use yaghan.Net.Addr.{Addr}
use yaghan.Daemon.Egress.{FirewallPolicy, egress_allow, egress_deny, FirewallMode}
use yaghan.Daemon.Firewall.Rules.{Target, accept, reject, masquerade, anywhere}
use yaghan.Daemon.Firewall.Verdict.{
  Packet, or_else, decide, Decides, Decides-forward, Decides-postrouting, Decides-seq, Decides-stop,
}
use yaghan.Daemon.Firewall.{
  empty_device, invalid_subnet, filter_forward, nat_postrouting, Tables, Kernel, ◌>>◌,
  NamespaceConfig, is_valid_prefix, return_rule, egress_rule, append_unique, append_egress,
  append_egress_accept, append_egress_allow, append_egress_deny, configure_namespace,
}
use yaghan.Daemon.Firewall.Policy.{
  is_listed, returns, leaves, gate, via_domains, permits, namespace_verdict, return_rule-verdict,
}
use yaghan.Daemon.Firewall.Additions.{
  Adds, Adds-seq, Adds-endpoint, Adds-listed, Adds-append_domains, Decides-same, and_true,
}

module _ (in_set : Text → Addr → Bool) where
  module _ (kernel : Kernel) (c : NamespaceConfig) (p : Packet)
      (named : text_beq c.namespace_veth_name [] ≡ false) where
    Decides-append_egress_accept :
        Decides in_set kernel p
          (append_egress_accept kernel c.guest_subnet c.namespace_veth_name)
          (gate (leaves c p) accept)
    unfolding append_egress_accept Adds
    Decides-append_egress_accept =
        Decides-same in_set kernel c p named _
          (ap (λ b. gate b accept) (and_true in_set kernel c p named (leaves c p)))
          (Adds-endpoint in_set kernel c p named anywhere accept)

    Decides-append_egress_allow :
        (policy : FirewallPolicy)
        → Decides in_set kernel p (append_egress_allow kernel c policy) (
            if leaves c p
            then some (
                if is_listed policy p.dst || via_domains in_set c policy.domains p
                then accept
                else reject)
            else none)
    unfolding append_egress_allow Adds
    Decides-append_egress_allow policy =
        Decides-same in_set kernel c p named _
          (closes (leaves c p) (is_listed policy p.dst || via_domains in_set c policy.domains p))
          (Decides-seq in_set kernel p _ _ _ _
            (Adds-seq in_set kernel c p named _ _ _ _ accept
              (Adds-listed in_set kernel c p named policy accept)
              (Adds-append_domains in_set kernel c p named policy.domains))
            (Adds-endpoint in_set kernel c p named anywhere reject))
      where
        closes :
            (l b : Bool)
            → or_else in_set (gate (l && b) accept) (gate (l && true) reject)
              ≡ (if l then some (if b then accept else reject) else none)
        closes true true = refl
        closes true false = refl
        closes false b = refl

    Decides-append_egress_deny :
        (policy : FirewallPolicy)
        → Decides in_set kernel p (append_egress_deny kernel c policy) (
            if leaves c p
            then some (if not (is_listed policy p.dst) then accept else reject)
            else none)
    unfolding append_egress_deny Adds
    Decides-append_egress_deny policy =
        Decides-same in_set kernel c p named _ (opens (leaves c p) (is_listed policy p.dst)) (
          Decides-seq in_set kernel p _ _ _ _ (Adds-listed in_set kernel c p named policy reject)
            Decides-append_egress_accept)
      where
        opens :
            (l b : Bool)
            → or_else in_set (gate (l && b) reject) (gate l accept)
              ≡ (if l then some (if not b then accept else reject) else none)
        opens true true = refl
        opens true false = refl
        opens false b = refl

    -- What the policy's rules decide on a packet that the guest sends out.
    Decides-append_egress :
        (policy : Option FirewallPolicy)
        → Decides in_set kernel p (append_egress kernel c policy) (
            if leaves c p
            then some (if permits in_set c policy p then accept else reject)
            else none)
    unfolding append_egress
    Decides-append_egress none = Decides-append_egress_accept
    Decides-append_egress (some policy) = by_mode policy.mode refl
      where
        by_mode :
            (mode : FirewallMode)
            → policy.mode ≡ mode
            → Decides in_set kernel p (append_egress kernel c (some policy)) (
                if leaves c p
                then some (if permits in_set c (some policy) p then accept else reject)
                else none)
        by_mode egress_allow e = rw e (Decides-append_egress_allow policy)
        by_mode egress_deny e = rw e (Decides-append_egress_deny policy)

    Decides-configured :
        Decides in_set kernel p
          (append_unique kernel filter_forward (return_rule c.guest_subnet c.namespace_veth_name)
            >> append_egress kernel c c.egress
            >> append_unique kernel nat_postrouting
                (egress_rule c.guest_subnet c.namespace_veth_name anywhere masquerade))
          (namespace_verdict in_set c p)
    unfolding namespace_verdict
    Decides-configured = Decides-same in_set kernel c p named _ (whole (returns c p) _) (
        Decides-seq in_set kernel p _ _ _ _
          (Decides-seq in_set kernel p _ _ _ _
            (Decides-same in_set kernel c p named _ (return_rule-verdict in_set c p named)
              (Decides-forward in_set kernel p _))
            (Decides-append_egress c.egress))
          (Decides-postrouting in_set kernel p _))
      where
        whole :
            (b : Bool) (v : Option Target)
            → or_else in_set (or_else in_set (gate b accept) v) none
              ≡ (if b then some accept else v)
        whole true v = refl
        whole false none = refl
        whole false (some v) = refl

  Decides-configure_namespace :
      (kernel : Kernel) (c : NamespaceConfig) (p : Packet)
      → Decides in_set kernel p (configure_namespace kernel c) (namespace_verdict in_set c p)
  unfolding configure_namespace
  Decides-configure_namespace kernel c p = elim (Bool-cases (text_beq c.namespace_veth_name [])) [
    | inl e ↦ rw e (Decides-stop in_set kernel p empty_device _)
    | inr named ↦ elim (Bool-cases (is_valid_prefix c.guest_subnet)) [
      | inl valid ↦ rw (named, valid) (Decides-configured kernel c p named)
      | inr bad ↦ rw (named, bad) (Decides-stop in_set kernel p invalid_subnet _)
    ]
  ]

  -- ConfigureNamespace on a FORWARD chain without rules, when it returns no error: for every packet
  -- the chain then decides what the policy says. Replies that come back through the veth are
  -- accepted. A packet that the guest sends out is accepted without a policy; under an allow policy
  -- it is accepted exactly when its destination is a listed address, in a listed block, or, where
  -- the policy names domains, in the sandbox's set or the resolver's port 53, and rejected
  -- otherwise; under a deny policy it is rejected exactly when its destination is listed. On any
  -- other packet the chain decides nothing.
  pub configure_namespace-decides :
      (kernel : Kernel) (c : NamespaceConfig) (t : Tables) (p : Packet)
      → t.rules filter_forward ≡ []
      → (configure_namespace kernel c t).1 ≡ none
      → decide in_set ((configure_namespace kernel c t).0.rules filter_forward) p
        ≡ namespace_verdict in_set c p
  unfolding Decides namespace_verdict decide
  configure_namespace-decides kernel c t p empty done =
      Decides-configure_namespace kernel c p t done ∙ rw empty refl
