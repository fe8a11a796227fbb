-- ===== src/Daemon/Firewall/Rules.antt =====
-- The rules of daemon/pkg/network/firewall/iptables.go as values, and AppendUnique on a list of them.
use yaghan.Base.{
  ◌≡◌, ◌↔◌, refl, Bool, true, false, ◌&&◌, ◌||◌, List, [], ◌∷◌, ◌++◌, if◌then◌else◌, nat_beq, arith,
  Bool-cases, inl, inr,
}
use yaghan.Base.Text.{Text, text_beq, text_beq_iff}
use yaghan.Net.Addr.{Addr, addr_beq, addr_beq_iff}
use yaghan.Net.Allocator.{Prefix}

pub data Target : Type 0 where
  accept reject masquerade : Target
  jump : Text → Target

-- `-p udp --dport 53` and its like.
pub data Protocol : Type 0 where
  any_protocol udp_53 tcp_53 : Protocol

-- The value of `-s` or `-d`.
pub data Endpoint : Type 0 where
  anywhere : Endpoint
  single : Addr → Endpoint
  network : Prefix → Endpoint

-- A rule: `-i`, `-o`, `-s`, `-d`, `-p`, the conntrack match, `--match-set` and `-j`; an empty text
-- stands for a match that the rule does not name.
pub record Rule : Type 0 where
  pub in_iface : Text
  pub out_iface : Text
  pub src : Endpoint
  pub dst : Endpoint
  pub protocol : Protocol
  pub established : Bool
  pub match_set : Text
  pub target : Target

abbrev pub any_rule : Rule
any_rule = record {
  in_iface = [];
  out_iface = [];
  src = anywhere;
  dst = anywhere;
  protocol = any_protocol;
  established = false;
  match_set = [];
  target = accept;
}

abbrev target_beq : Target → Target → Bool
target_beq accept accept = true
target_beq reject reject = true
target_beq masquerade masquerade = true
target_beq (jump a) (jump b) = text_beq a b
target_beq _ _ = false

abbrev pub protocol_beq : Protocol → Protocol → Bool
protocol_beq any_protocol any_protocol = true
protocol_beq udp_53 udp_53 = true
protocol_beq tcp_53 tcp_53 = true
protocol_beq _ _ = false

abbrev prefix_beq : Prefix → Prefix → Bool
prefix_beq p q = nat_beq p.addr q.addr && nat_beq p.bits q.bits

abbrev endpoint_beq : Endpoint → Endpoint → Bool
endpoint_beq anywhere anywhere = true
endpoint_beq (single a) (single b) = addr_beq a b
endpoint_beq (network p) (network q) = prefix_beq p q
endpoint_beq _ _ = false

abbrev bool_beq : Bool → Bool → Bool
bool_beq true b = b
bool_beq false true = false
bool_beq false false = true

-- Whether two rules have the same arguments.
unfoldable pub rule_beq : Rule → Rule → Bool
rule_beq r s =
    text_beq r.in_iface s.in_iface
    && text_beq r.out_iface s.out_iface
    && endpoint_beq r.src s.src
    && endpoint_beq r.dst s.dst
    && protocol_beq r.protocol s.protocol
    && bool_beq r.established s.established
    && text_beq r.match_set s.match_set
    && target_beq r.target s.target

unfoldable pub contains_rule : List Rule → Rule → Bool
contains_rule [] r = false
contains_rule (s ∷ rs) r = rule_beq s r || contains_rule rs r

-- iptables -C, then iptables -A.
unfoldable pub add_unique : List Rule → Rule → List Rule
add_unique rs r = if contains_rule rs r then rs else rs ++ r ∷ []

target_beq_iff : (a b : Target) → (target_beq a b ≡ true) ↔ (a ≡ b)
target_beq_iff (jump a) (jump b) =
    (λ h. ground (arith, text_beq_iff a b), λ h. ground (arith, text_beq_iff a b))
target_beq_iff accept accept = (λ h. refl, λ h. refl)
target_beq_iff reject reject = (λ h. refl, λ h. refl)
target_beq_iff masquerade masquerade = (λ h. refl, λ h. refl)
target_beq_iff _ _ = (λ h. cc, λ h. cc)

protocol_beq_iff : (a b : Protocol) → (protocol_beq a b ≡ true) ↔ (a ≡ b)
protocol_beq_iff any_protocol any_protocol = (λ h. refl, λ h. refl)
protocol_beq_iff udp_53 udp_53 = (λ h. refl, λ h. refl)
protocol_beq_iff tcp_53 tcp_53 = (λ h. refl, λ h. refl)
protocol_beq_iff _ _ = (λ h. cc, λ h. cc)

endpoint_beq_iff : (a b : Endpoint) → (endpoint_beq a b ≡ true) ↔ (a ≡ b)
endpoint_beq_iff anywhere anywhere = (λ h. refl, λ h. refl)
endpoint_beq_iff (single a) (single b) =
    (λ h. ground (arith, addr_beq_iff a b), λ h. ground (arith, addr_beq_iff a b))
endpoint_beq_iff (network p) (network q) = (λ h. ground arith, λ h. ground arith)
endpoint_beq_iff _ _ = (λ h. cc, λ h. cc)

bool_beq_iff : (a b : Bool) → (bool_beq a b ≡ true) ↔ (a ≡ b)
bool_beq_iff true true = (λ h. refl, λ h. refl)
bool_beq_iff false false = (λ h. refl, λ h. refl)
bool_beq_iff _ _ = (λ h. cc, λ h. cc)

rule_beq_refl : (r : Rule) → rule_beq r r ≡ true
unfolding rule_beq
rule_beq_refl r =
    rw
      (
        (text_beq_iff r.in_iface r.in_iface).1 refl,
        (text_beq_iff r.out_iface r.out_iface).1 refl,
        (endpoint_beq_iff r.src r.src).1 refl,
        (endpoint_beq_iff r.dst r.dst).1 refl,
        (protocol_beq_iff r.protocol r.protocol).1 refl,
        (bool_beq_iff r.established r.established).1 refl,
        (text_beq_iff r.match_set r.match_set).1 refl,
        (target_beq_iff r.target r.target).1 refl,
      )
      refl

pub rule_beq-same : (r s : Rule) → rule_beq r s ≡ true → r ≡ s
unfolding rule_beq
rule_beq-same r s h =
    let in_iface : r.in_iface ≡ s.in_iface = ground (arith, text_beq_iff r.in_iface s.in_iface) in
    let out_iface : r.out_iface ≡ s.out_iface =
      ground (arith, text_beq_iff r.out_iface s.out_iface) in
    let src : r.src ≡ s.src = ground (arith, endpoint_beq_iff r.src s.src) in
    let dst : r.dst ≡ s.dst = ground (arith, endpoint_beq_iff r.dst s.dst) in
    let protocol : r.protocol ≡ s.protocol =
      ground (arith, protocol_beq_iff r.protocol s.protocol) in
    let established : r.established ≡ s.established =
      ground (arith, bool_beq_iff r.established s.established) in
    let match_set : r.match_set ≡ s.match_set =
      ground (arith, text_beq_iff r.match_set s.match_set) in
    let target : r.target ≡ s.target = ground (arith, target_beq_iff r.target s.target) in cc

-- A rule is in a list once it was added.
pub contains_rule-add_unique :
    (rs : List Rule) (r : Rule) → contains_rule (add_unique rs r) r ≡ true
unfolding add_unique contains_rule
contains_rule-add_unique rs r = elim (Bool-cases (contains_rule rs r)) [
  | inl e ↦ rw (e, add_unique) e
  | inr e ↦ rw (e, add_unique) (last rs)
]
  where
    last : (qs : List Rule) → contains_rule (qs ++ r ∷ []) r ≡ true
    last [] = rw (rule_beq_refl r) refl
    last (q ∷ qs) = ground (arith, last qs)

contains_rule-append :
    (rs qs : List Rule) (s : Rule) → contains_rule rs s ≡ true → contains_rule (rs ++ qs) s ≡ true
unfolding contains_rule
contains_rule-append [] qs s h = cc
contains_rule-append (r ∷ rs) qs s h = elim (Bool-cases (contains_rule rs s)) [
  | inl e ↦ ground (arith, contains_rule-append rs qs s e)
  | inr e ↦ ground arith
]

-- Adding a rule keeps the others.
pub add_unique-keeps :
    (rs : List Rule) (r s : Rule)
    → contains_rule rs s ≡ true
    → contains_rule (add_unique rs r) s ≡ true
unfolding add_unique
add_unique-keeps rs r s h = elim (Bool-cases (contains_rule rs r)) [
  | inl e ↦ rw e h
  | inr e ↦ rw e (contains_rule-append rs (r ∷ []) s h)
]
