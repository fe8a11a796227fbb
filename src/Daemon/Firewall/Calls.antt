-- ===== src/Daemon/Firewall/Calls.antt =====
-- What one call of daemon/pkg/network/firewall/iptables.go adds to the tables, and that a second one
-- adds nothing.
use yaghan.Base.{
  ℕ, ◌≡◌, refl, sym, ap, ◌∙◌, Bool, true, false, Option, none, some, if◌then◌else◌, nat_beq, arith,
  Bool-cases, inl, inr,
}
use mathlib.Core.Path.{subst, fun_ext}
use yaghan.Daemon.Firewall.Rules.{
  Rule, contains_rule, add_unique, contains_rule-add_unique, add_unique-keeps,
}
use yaghan.Daemon.Firewall.Sequence.{
  append_unique_law, ensure_sandbox_set_law, new_chain_law, ensure_chain_law, seq-succeeds,
  append_unique-succeeds,
}
use yaghan.Daemon.Firewall.{
  Kernel, Chain, filter_forward, nat_postrouting, filter_input, host_forward_chain, host_nat_chain,
  chain_beq, Tables, FirewallError, Action, ◌>>◌, nothing, stop, append_unique, ensure_sandbox_set,
  new_chain, ensure_chain,
}

chain_beq-same : (c d : Chain) → chain_beq c d ≡ true → c ≡ d
chain_beq-same filter_forward filter_forward h = refl
chain_beq-same nat_postrouting nat_postrouting h = refl
chain_beq-same filter_input filter_input h = refl
chain_beq-same host_forward_chain host_forward_chain h = refl
chain_beq-same host_nat_chain host_nat_chain h = refl
chain_beq-same _ _ h = cc

chain_beq_refl : (c : Chain) → chain_beq c c ≡ true
chain_beq_refl filter_forward = refl
chain_beq_refl nat_postrouting = refl
chain_beq_refl filter_input = refl
chain_beq_refl host_forward_chain = refl
chain_beq_refl host_nat_chain = refl

-- Everything in the first tables is in the second.
unfoldable pub Extends : Tables → Tables → Type 0
Extends t u =
    ((c : Chain) (r : Rule)
      → contains_rule (t.rules c) r ≡ true
      → contains_rule (u.rules c) r ≡ true)
    × ((c : Chain) → t.exists c ≡ true → u.exists c ≡ true)
    × ((i : ℕ) → t.sets i ≡ true → u.sets i ≡ true)

pub Extends-trans : (t u v : Tables) → Extends t u → Extends u v → Extends t v
unfolding Extends
Extends-trans t u v f g =
    (λ c r h. g.0 c r (f.0 c r h), λ c h. g.1 c (f.1 c h), λ i h. g.2 i (f.2 i h))

pub Extends-refl : (t : Tables) → Extends t t
unfolding Extends
Extends-refl t = (λ c r h. h, λ c h. h, λ i h. h)

-- The first action only adds; once it succeeded, the second one changes nothing.
unfoldable pub Settles : Action → Action → Type 0
Settles m n =
    ((t : Tables) → Extends t (m t).0)
    × ((t u : Tables) → (m t).1 ≡ none → Extends (m t).0 u → (n u).0 ≡ u)

seq_grows :
    (m n : Action)
    → ((t : Tables) → Extends t (m t).0)
    → ((t : Tables) → Extends t (n t).0)
    → (t : Tables) → Extends t ((m >> n) t).0
seq_grows m n hm hn t = by_error (m t).1 refl
  where
    by_error : (e : Option FirewallError) → (m t).1 ≡ e → Extends t ((m >> n) t).0
    by_error none q = rw (◌>>◌, q) (Extends-trans t (m t).0 _ (hm t) (hn (m t).0))
    by_error (some e) q = rw (◌>>◌, q) (hm t)

seq_same : (m n : Action) (u : Tables) → (m u).0 ≡ u → (n u).0 ≡ u → ((m >> n) u).0 ≡ u
seq_same m n u hm hn = by_error (m u).1 refl
  where
    by_error : (e : Option FirewallError) → (m u).1 ≡ e → ((m >> n) u).0 ≡ u
    by_error none q = rw (◌>>◌, q) (ap (λ v. (n v).0) hm ∙ hn)
    by_error (some e) q = rw (◌>>◌, q) hm

pub Settles-seq : (m n m2 n2 : Action) → Settles m m2 → Settles n n2 → Settles (m >> n) (m2 >> n2)
unfolding Settles
Settles-seq m n m2 n2 hm hn = (seq_grows m n hm.0 hn.0, settled)
  where
    settled :
        (t u : Tables) → ((m >> n) t).1 ≡ none → Extends ((m >> n) t).0 u → ((m2 >> n2) u).0 ≡ u
    settled t u h x =
        let (first, same) = seq-succeeds m n t h in
        let last : Extends (n (m t).0).0 u = subst (λ r. Extends r.0 u) same x in
        seq_same m2 n2 u (hm.1 t u first (Extends-trans (m t).0 _ u (hn.0 (m t).0) last))
          (hn.1 (m t).0 u (ap (λ r. r.1) (sym same) ∙ h) last)

pub Settles-nothing : Settles nothing nothing
unfolding Settles
Settles-nothing = (Extends-refl, λ t u h x. refl)

pub Settles-stop : (e : FirewallError) → Settles (stop e) (stop e)
unfolding Settles
Settles-stop e = (Extends-refl, λ t u h x. refl)

if_true : (b c : Bool) → c ≡ true → (if b then true else c) ≡ true
if_true true c h = refl
if_true false c h = h

module _ {ℓ} {A : Type ℓ} where
  -- Writing to a function at a chain, or at a number, what it holds there.
  same_at_chain :
      (chain : Chain) (f g : Chain → A)
      → g chain ≡ f chain
      → (λ c. if chain_beq chain c then g c else f c) ≡ f
  same_at_chain chain f g h = fun_ext at
    where
      at : (c : Chain) → (if chain_beq chain c then g c else f c) ≡ f c
      at c = elim (Bool-cases (chain_beq chain c)) [
        | inl e ↦ rw e (subst (λ d. g d ≡ f d) (chain_beq-same chain c e) h)
        | inr e ↦ rw e refl
      ]

module _ (kernel : Kernel) where
  pub append_unique-Extends :
      (chain : Chain) (r : Rule) (t : Tables) → Extends t (append_unique kernel chain r t).0
  unfolding Extends
  append_unique-Extends chain r t = elim (append_unique_law kernel chain r t) [
    | inl e ↦ rw e (kept, λ c h. h, λ i h. h)
    | inr e ↦ rw e (λ c s h. h, λ c h. h, λ i h. h)
  ]
    where
      kept :
          (c : Chain) (s : Rule)
          → contains_rule (t.rules c) s ≡ true
          → contains_rule (if chain_beq chain c then add_unique (t.rules c) r else t.rules c) s
            ≡ true
      kept c s h = elim (Bool-cases (chain_beq chain c)) [
        | inl e ↦ rw e (add_unique-keeps (t.rules c) r s h)
        | inr e ↦ rw e h
      ]

  pub append_unique-adds :
      (chain : Chain) (r : Rule) (t : Tables)
      → (append_unique kernel chain r t).1 ≡ none
      → contains_rule ((append_unique kernel chain r t).0.rules chain) r ≡ true
  append_unique-adds chain r t h =
      rw (append_unique-succeeds kernel chain r t h, chain_beq_refl chain)
        (contains_rule-add_unique (t.rules chain) r)

  pub append_unique-same :
      (chain : Chain) (r : Rule) (u : Tables)
      → contains_rule (u.rules chain) r ≡ true
      → (append_unique kernel chain r u).0 ≡ u
  unfolding add_unique
  append_unique-same chain r u h = elim (append_unique_law kernel chain r u) [
    | inl e ↦ rw e (
        ap (λ f. record u { rules = f })
          (same_at_chain chain u.rules (λ c. add_unique (u.rules c) r) (rw h refl)))
    | inr e ↦ rw e refl
  ]

  new_chain-Extends : (chain : Chain) (t : Tables) → Extends t (new_chain kernel chain t).0
  unfolding Extends
  new_chain-Extends chain t = elim (new_chain_law kernel chain t) [
    | inl e ↦ rw e (λ c r h. h, λ c h. if_true (chain_beq chain c) (t.exists c) h, λ i h. h)
    | inr e ↦ rw e (λ c r h. h, λ c h. h, λ i h. h)
  ]

  pub ensure_chain-Extends :
      (chain : Chain) (t : Tables) → Extends t (ensure_chain kernel chain t).0
  ensure_chain-Extends chain t = elim (ensure_chain_law kernel chain t) [
    | inl found ↦ rw found.1 (Extends-refl t)
    | inr (inl made) ↦ rw made.0 (new_chain-Extends chain t)
    | inr (inr e) ↦ rw e (Extends-refl t)
  ]

  new_chain-adds :
      (chain : Chain) (t : Tables)
      → (new_chain kernel chain t).1 ≡ none
      → (new_chain kernel chain t).0.exists chain ≡ true
  new_chain-adds chain t h = elim (new_chain_law kernel chain t) [
    | inl e ↦ rw (e, chain_beq_refl chain) refl
    | inr e ↦ cc (ap (λ q. q.1) e)
  ]

  pub ensure_chain-adds :
      (chain : Chain) (t : Tables)
      → (ensure_chain kernel chain t).1 ≡ none
      → (ensure_chain kernel chain t).0.exists chain ≡ true
  ensure_chain-adds chain t h = elim (ensure_chain_law kernel chain t) [
    | inl found ↦ rw found.1 found.0
    | inr (inl made) ↦ rw made.0 (new_chain-adds chain t (ap (λ q. q.1) (sym made.0) ∙ h))
    | inr (inr e) ↦ cc (ap (λ q. q.1) e)
  ]

  pub ensure_chain-same :
      (chain : Chain) (u : Tables) → u.exists chain ≡ true → (ensure_chain kernel chain u).0 ≡ u
  ensure_chain-same chain u h = elim (ensure_chain_law kernel chain u) [
    | inl found ↦ rw found.1 refl
    | inr (inl made) ↦ cc (h, made.1)
    | inr (inr e) ↦ rw e refl
  ]

  pub ensure_sandbox_set-Extends :
      (i : ℕ) (t : Tables) → Extends t (ensure_sandbox_set kernel i t).0
  unfolding Extends
  ensure_sandbox_set-Extends i t = elim (ensure_sandbox_set_law kernel i t) [
    | inl e ↦ rw e (λ c r h. h, λ c h. h, λ j h. if_true (nat_beq i j) (t.sets j) h)
    | inr e ↦ rw e (λ c r h. h, λ c h. h, λ j h. h)
  ]

  pub ensure_sandbox_set-adds :
      (i : ℕ) (t : Tables)
      → (ensure_sandbox_set kernel i t).1 ≡ none
      → (ensure_sandbox_set kernel i t).0.sets i ≡ true
  ensure_sandbox_set-adds i t h = elim (ensure_sandbox_set_law kernel i t) [
    | inl e ↦ rw e (ground arith)
    | inr e ↦ cc (ap (λ q. q.1) e)
  ]

  pub ensure_sandbox_set-same :
      (i : ℕ) (u : Tables) → u.sets i ≡ true → (ensure_sandbox_set kernel i u).0 ≡ u
  ensure_sandbox_set-same i u h = elim (ensure_sandbox_set_law kernel i u) [
    | inl e ↦ rw e (ap (λ f. record u { sets = f }) (fun_ext at))
    | inr e ↦ rw e refl
  ]
    where
      at : (j : ℕ) → (if nat_beq i j then true else u.sets j) ≡ u.sets j
      at j = ground arith
