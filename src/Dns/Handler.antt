-- ===== src/Dns/Handler.antt =====
-- daemon/pkg/dns/handler.go: one query, from the wire to the reply. The upstream resolver is a
-- function from the query to its response, `none` for an error or a nil response; what the handler
-- does to the world is the list of its actions in order. Durations are nanoseconds; a negative one,
-- which the code treats as an absent one, is 0.
pub mod Policy
pub mod Snooping
use yaghan.Base.{
  ℕ, ◌+◌, ◌*◌, ◌≡◌, Bool, true, false, ◌&&◌, ◌||◌, not, List, [], ◌∷◌, ◌++◌, Option, none, some,
  if◌then◌else◌, ltb, leb, nat_beq,
}
use yaghan.Base.Text.{Text}
use yaghan.Net.Addr.{Addr, addr_from_slice, unmap, to4, to16}
use yaghan.Dns.Matcher.{match_any}
use yaghan.Dns.PolicyStore.{
  EgressMode, mode_none, mode_allow, mode_deny, mode_other, SandboxDnsPolicy, PolicyStore, find,
}

-- A resource record: its bytes and time to live, or a type that the handler ignores.
pub data Rr : Type 0 where
  a aaaa : List ℕ → ℕ → Rr
  other_rr : Rr

pub record Msg : Type 0 where
  pub id : ℕ
  pub question : List Text
  pub answer : List Rr

pub data Rcode : Type 0 where
  format_error server_failure refused : Rcode

-- What is written to the client: a reply that carries only a code, or a message.
pub data Reply : Type 0 where
  with_rcode : Msg → Rcode → Reply
  relayed : Msg → Reply

pub data Action : Type 0 where
  wrote : Reply → Action
  exchanged : Msg → Action
  noted : SandboxDnsPolicy → Addr → ℕ → Action

-- The address of the client as the server's transport reports it.
pub data RemoteAddr : Type 0 where
  udp_addr tcp_addr : List ℕ → RemoteAddr
  other_addr : RemoteAddr

pub record HandlerOptions : Type 0 where
  pub store : Option PolicyStore
  pub has_upstream : Bool
  pub has_snooper : Bool
  pub min_entry_ttl : ℕ
  pub max_entry_ttl : ℕ
  pub forward_timeout : ℕ

pub record Handler : Type 0 where
  pub store : PolicyStore
  pub min_ttl : ℕ
  pub max_ttl : ℕ
  pub forward_timeout : ℕ

pub data HandlerError : Type 0 where
  no_store no_upstream no_snooper : HandlerError

pub data NewResult : Type 0 where
  made : Handler → NewResult
  failed : HandlerError → NewResult

abbrev pub second : ℕ
second = 1000000000

-- A field that is not set takes its default.
abbrev pub or_default : ℕ → ℕ → ℕ
or_default d n = if leb n 0 then d else n

unfoldable pub new_handler : HandlerOptions → NewResult
new_handler opts = elim opts.store [
  | none ↦ failed no_store
  | some store ↦
      if not opts.has_upstream
      then failed no_upstream
      else if not opts.has_snooper
      then failed no_snooper
      else made (record {
        store = store;
        min_ttl = or_default (30 * second) opts.min_entry_ttl;
        max_ttl = or_default (300 * second) opts.max_entry_ttl;
        forward_timeout = or_default (5 * second) opts.forward_timeout;
      })
]

unfoldable pub clamp_ttl : ℕ → ℕ → ℕ → ℕ
clamp_ttl ttl floor ceiling =
    if ltb ttl floor then floor else if ltb ceiling ttl then ceiling else ttl

unfoldable pub remote_ip : RemoteAddr → Option Addr
remote_ip (udp_addr ip) = elim (addr_from_slice ip) [ none ↦ none | some x ↦ some (unmap x) ]
remote_ip (tcp_addr ip) = elim (addr_from_slice ip) [ none ↦ none | some x ↦ some (unmap x) ]
remote_ip other_addr = none

-- The address and time to live that the loop of `snoop` takes from a record, `none` to skip it.
unfoldable pub observed : Rr → Option (Addr × ℕ)
observed (a ip ttl) = elim (addr_from_slice (to4 ip)) [ none ↦ none | some x ↦ some (unmap x, ttl) ]
observed (aaaa ip ttl) = elim (addr_from_slice (to16 ip)) [ none ↦ none | some x ↦ some (x, ttl) ]
observed other_rr = none

abbrev note_of : Handler → SandboxDnsPolicy → Option (Addr × ℕ) → List Action → List Action
note_of h policy none rest = rest
note_of h policy (some (addr, raw)) rest =
    noted policy addr (clamp_ttl (raw * second) h.min_ttl h.max_ttl) ∷ rest

unfoldable pub snoop : Handler → SandboxDnsPolicy → List Rr → List Action
snoop h policy [] = []
snoop h policy (rr ∷ rrs) = note_of h policy (observed rr) (snoop h policy rrs)

-- The `switch` on the mode: whether the query goes on to the upstream.
unfoldable pub survives : EgressMode → Bool → Bool
survives mode_allow matched = matched
survives mode_deny matched = not matched
survives mode_none matched = true
survives (mode_other n) matched = false

abbrev is_allow : EgressMode → Bool
is_allow mode_allow = true
is_allow _ = false

-- After the upstream's answer.
unfoldable pub relay : Handler → SandboxDnsPolicy → Msg → Option Msg → List Action
relay h policy req none = wrote (with_rcode req server_failure) ∷ []
relay h policy req (some resp) =
    (if is_allow policy.mode then snoop h policy resp.answer else [])
    ++ wrote (relayed (record resp { id = req.id })) ∷ []

unfoldable pub serve_policy :
    Handler → (Msg → Option Msg) → Msg → Text → Option SandboxDnsPolicy → List Action
serve_policy h upstream req qname none = wrote (with_rcode req refused) ∷ []
serve_policy h upstream req qname (some policy) =
    if survives policy.mode (match_any policy.matchers qname)
    then exchanged req ∷ relay h policy req (upstream req)
    else wrote (with_rcode req refused) ∷ []

unfoldable pub serve_source : Handler → (Msg → Option Msg) → Msg → Text → Option Addr → List Action
serve_source h upstream req qname none = wrote (with_rcode req refused) ∷ []
serve_source h upstream req qname (some src) = serve_policy h upstream req qname (find src h.store)

unfoldable pub serve_dns : Handler → (Msg → Option Msg) → RemoteAddr → Msg → List Action
serve_dns h upstream remote req = elim req.question [
  | [] ↦ wrote (with_rcode req format_error) ∷ []
  | qname ∷ _ ↦ serve_source h upstream req qname (remote_ip remote)
]
