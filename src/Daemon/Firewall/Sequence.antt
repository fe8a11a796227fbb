-- ===== src/Daemon/Firewall/Sequence.antt =====
-- The sequences of calls of daemon/pkg/network/firewall/iptables.go that meet no error.
use yaghan.Base.{
  Bool-cases, true, false, arith, ℕ, ◌≡◌, ◌⊎◌, refl, ap, Option, none, some, inl, inr,
}
use yaghan.Daemon.Firewall.Rules.{Rule}
use yaghan.Daemon.Firewall.{
  Chain, Tables, FirewallError, Kernel, appended, with_set, with_chain, checked, iptables_failed,
  ipset_failed, new_chain, ensure_chain, Action, ◌>>◌, append_unique, ensure_sandbox_set,
}

seq_after :
    (m n : Action) (t : Tables) (e : Option FirewallError)
    → (m t).1 ≡ e
    → ((m >> n) t).1 ≡ none
    → (e ≡ none) × ((m >> n) t ≡ n (m t).0)
seq_after m n t none q h = (refl, rw (◌>>◌, q) refl)
seq_after m n t (some e) q h = ground arith

-- A sequence without an error runs both of its parts.
pub seq-succeeds :
    (m n : Action) (t : Tables)
    → ((m >> n) t).1 ≡ none
    → ((m t).1 ≡ none) × ((m >> n) t ≡ n (m t).0)
seq-succeeds m n t h = seq_after m n t (m t).1 refl h

module _ (kernel : Kernel) where
  pub append_unique_law :
      (chain : Chain) (r : Rule) (t : Tables)
      → (append_unique kernel chain r t ≡ (appended chain r t, none))
        ⊎ (append_unique kernel chain r t ≡ (t, some iptables_failed))
  unfolding append_unique
  append_unique_law chain r t = elim (kernel.append_unique_law chain r t) [
    | inl e ↦ inl (ap (checked iptables_failed) e)
    | inr e ↦ inr (ap (checked iptables_failed) e)
  ]

  pub ensure_sandbox_set_law :
      (i : ℕ) (t : Tables)
      → (ensure_sandbox_set kernel i t ≡ (with_set i t, none))
        ⊎ (ensure_sandbox_set kernel i t ≡ (t, some ipset_failed))
  unfolding ensure_sandbox_set
  ensure_sandbox_set_law i t = elim (kernel.ensure_set_law i t) [
    | inl e ↦ inl (ap (checked ipset_failed) e)
    | inr e ↦ inr (ap (checked ipset_failed) e)
  ]

  pub new_chain_law :
      (chain : Chain) (t : Tables)
      → (new_chain kernel chain t ≡ (with_chain chain t, none))
        ⊎ (new_chain kernel chain t ≡ (t, some iptables_failed))
  unfolding new_chain
  new_chain_law chain t = elim (kernel.new_chain_law chain t) [
    | inl e ↦ inl (ap (checked iptables_failed) e)
    | inr e ↦ inr (ap (checked iptables_failed) e)
  ]

  -- ensure_chain finds the chain, makes it, or cannot look.
  pub ensure_chain_law :
      (chain : Chain) (t : Tables)
      → ((t.exists chain ≡ true) × (ensure_chain kernel chain t ≡ (t, none)))
        ⊎ ((ensure_chain kernel chain t ≡ new_chain kernel chain t) × (t.exists chain ≡ false)
            ⊎ (ensure_chain kernel chain t ≡ (t, some iptables_failed)))
  unfolding ensure_chain
  ensure_chain_law chain t = elim (kernel.chain_exists_law chain t) [
    | inl e ↦ elim (Bool-cases (t.exists chain)) [
      | inl there ↦ inl (there, rw (ensure_chain, e, there) refl)
      | inr absent ↦ inr (inl (rw (ensure_chain, e, absent) refl, absent))
    ]
    | inr e ↦ inr (inr (rw (ensure_chain, e) refl))
  ]

  pub append_unique-succeeds :
      (chain : Chain) (r : Rule) (t : Tables)
      → (append_unique kernel chain r t).1 ≡ none
      → append_unique kernel chain r t ≡ (appended chain r t, none)
  append_unique-succeeds chain r t h = elim (append_unique_law chain r t) [
    | inl e ↦ e
    | inr e ↦ cc (ap (λ q. q.1) e)
  ]

  pub ensure_sandbox_set-rules :
      (i : ℕ) (t : Tables) → (ensure_sandbox_set kernel i t).0.rules ≡ t.rules
  ensure_sandbox_set-rules i t = elim (ensure_sandbox_set_law i t) [
    | inl e ↦ rw e refl
    | inr e ↦ rw e refl
  ]
