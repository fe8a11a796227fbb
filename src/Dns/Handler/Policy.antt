-- ===== src/Dns/Handler/Policy.antt =====
-- Which queries the responder forwards, and that it answers each query once.
use yaghan.Base.{
  ℕ, ◌≡◌, ◌↔◌, ◌⊎◌, inl, inr, refl, true, false, List, [], ◌∷◌, ◌++◌, Option, none, some,
  Bool-cases, if◌then◌else◌, arith,
}
use yaghan.Base.Text.{Text}
use yaghan.Net.Addr.{Addr}
use yaghan.Dns.Matcher.{match_any}
use yaghan.Dns.PolicyStore.{mode_none, mode_allow, mode_deny, SandboxDnsPolicy, find}
use yaghan.Dns.Handler.{
  Rr, Msg, refused, format_error, server_failure, Reply, with_rcode, relayed, Action, wrote,
  exchanged, RemoteAddr, Handler, remote_ip, snoop, survives, relay, serve_policy, serve_source,
  serve_dns,
}

-- The queries that were sent upstream, and the replies that were written.
abbrev pub sent : List Action → List Msg
sent [] = []
sent (exchanged m ∷ acts) = m ∷ sent acts
sent (_ ∷ acts) = sent acts

abbrev pub replies : List Action → List Reply
replies [] = []
replies (wrote r ∷ acts) = r ∷ replies acts
replies (_ ∷ acts) = replies acts

-- A policy lets a name through: its mode names no restriction, it allows the name, or it does not
-- deny it.
abbrev pub Permits : SandboxDnsPolicy → Text → Type 0
Permits p name =
    (p.mode ≡ mode_none)
    ⊎ ((p.mode ≡ mode_allow) × (match_any p.matchers name ≡ true))
    ⊎ ((p.mode ≡ mode_deny) × (match_any p.matchers name ≡ false))

survives-Permits :
    (p : SandboxDnsPolicy) (name : Text)
    → (survives p.mode (match_any p.matchers name) ≡ true) ↔ Permits p name
unfolding survives
survives-Permits p name = (λ h. ground arith, λ h. ground arith)

snoop-sent :
    (h : Handler) (p : SandboxDnsPolicy) (rrs : List Rr) (acts : List Action)
    → sent (snoop h p rrs ++ acts) ≡ sent acts
unfolding snoop
snoop-sent h p [] acts = refl
snoop-sent h p (rr ∷ rrs) acts = ground (arith, snoop-sent h p rrs acts)

snoop-replies :
    (h : Handler) (p : SandboxDnsPolicy) (rrs : List Rr) (acts : List Action)
    → replies (snoop h p rrs ++ acts) ≡ replies acts
unfolding snoop
snoop-replies h p [] acts = refl
snoop-replies h p (rr ∷ rrs) acts = ground (arith, snoop-replies h p rrs acts)

relay-sent :
    (h : Handler) (p : SandboxDnsPolicy) (req : Msg) (o : Option Msg) → sent (relay h p req o) ≡ []
unfolding relay
relay-sent h p req none = refl
relay-sent h p req (some resp) =
    ground (arith, snoop-sent h p resp.answer (wrote (relayed (record resp { id = req.id })) ∷ []))

-- What a query may do upstream once its source is known.
pub serve_policy-sent :
    (h : Handler) (up : Msg → Option Msg) (req : Msg) (name : Text) (p : SandboxDnsPolicy)
    → sent (serve_policy h up req name (some p))
      ≡ (if survives p.mode (match_any p.matchers name) then req ∷ [] else [])
unfolding serve_policy
serve_policy-sent h up req name p = ground (arith, relay-sent h p req (up req))

abbrev pub Forwarded : Handler → RemoteAddr → Text → Type 0
Forwarded h remote name =
    (src : Addr) × (p : SandboxDnsPolicy) × (remote_ip remote ≡ some src)
    × (find src h.store ≡ some p)
    × Permits p name

closed_policy :
    (h : Handler) (up : Msg → Option Msg) (req : Msg) (name : Text) (o : Option SandboxDnsPolicy)
    → ((p : SandboxDnsPolicy) → o ≡ some p → ¬ Permits p name)
    → sent (serve_policy h up req name o) ≡ []
unfolding serve_policy
closed_policy h up req name none shut = refl
closed_policy h up req name (some p) shut =
    elim (Bool-cases (survives p.mode (match_any p.matchers name))) [
      | inl e ↦ absurd (shut p refl ((survives-Permits p name).0 e))
      | inr e ↦ rw e refl
    ]

closed_source :
    (h : Handler) (up : Msg → Option Msg) (req : Msg) (name : Text) (o : Option Addr)
    → ((src : Addr) (p : SandboxDnsPolicy)
        → o ≡ some src
        → find src h.store ≡ some p
        → ¬ Permits p name)
    → sent (serve_source h up req name o) ≡ []
unfolding serve_source
closed_source h up req name none shut = refl
closed_source h up req name (some src) shut =
    closed_policy h up req name (find src h.store) (λ p e ok. shut src p refl e ok)

-- A query reaches the upstream resolver exactly when its source address has a registered policy that
-- lets its name through; then it is sent once, and otherwise nothing is sent.
pub serve_dns-forwards_iff :
    (h : Handler) (up : Msg → Option Msg) (remote : RemoteAddr) (req : Msg) (name : Text)
    (more : List Text)
    → req.question ≡ name ∷ more
    → (Forwarded h remote name → sent (serve_dns h up remote req) ≡ req ∷ [])
      × (¬ Forwarded h remote name → sent (serve_dns h up remote req) ≡ [])
unfolding serve_dns serve_source serve_policy
serve_dns-forwards_iff h up remote req name more q = (there, back)
  where
    there : Forwarded h remote name → sent (serve_dns h up remote req) ≡ req ∷ []
    there (src, p, e, f, ok) =
        rw (q, serve_dns)
          (rw (e, serve_source)
            (rw (f, serve_policy)
              (ground (arith, relay-sent h p req (up req), (survives-Permits p name).1 ok))))

    back : ¬ Forwarded h remote name → sent (serve_dns h up remote req) ≡ []
    back no_way =
        rw (q, serve_dns)
          (closed_source h up req name (remote_ip remote)
            (λ src p e f ok. no_way (src, p, e, f, ok)))

-- The transaction id of a reply; a bare code is sent for the query's own message.
abbrev pub reply_id : Reply → ℕ
reply_id (with_rcode m c) = m.id
reply_id (relayed m) = m.id

abbrev OneReply : Msg → List Action → Type 0
OneReply req acts = (r : Reply) × (replies acts ≡ r ∷ []) × (reply_id r ≡ req.id)

relay-OneReply :
    (h : Handler) (p : SandboxDnsPolicy) (req : Msg) (o : Option Msg)
    → OneReply req (relay h p req o)
unfolding relay
relay-OneReply h p req none = (with_rcode req server_failure, refl, refl)
relay-OneReply h p req (some resp) =
    let out : Msg = record resp { id = req.id } in
    (relayed out, ground (arith, snoop-replies h p resp.answer (wrote (relayed out) ∷ [])), refl)

serve_policy-OneReply :
    (h : Handler) (up : Msg → Option Msg) (req : Msg) (name : Text) (o : Option SandboxDnsPolicy)
    → OneReply req (serve_policy h up req name o)
unfolding serve_policy
serve_policy-OneReply h up req name none = (with_rcode req refused, refl, refl)
serve_policy-OneReply h up req name (some p) =
    elim (Bool-cases (survives p.mode (match_any p.matchers name))) [
      | inl e ↦ rw e (relay-OneReply h p req (up req))
      | inr e ↦ rw e (with_rcode req refused, refl, refl)
    ]

serve_source-OneReply :
    (h : Handler) (up : Msg → Option Msg) (req : Msg) (name : Text) (o : Option Addr)
    → OneReply req (serve_source h up req name o)
unfolding serve_source
serve_source-OneReply h up req name none = (with_rcode req refused, refl, refl)
serve_source-OneReply h up req name (some src) =
    serve_policy-OneReply h up req name (find src h.store)

asked-OneReply :
    (h : Handler) (up : Msg → Option Msg) (remote : RemoteAddr) (req : Msg) (names : List Text)
    → req.question ≡ names
    → OneReply req (serve_dns h up remote req)
unfolding serve_dns
asked-OneReply h up remote req [] q = rw (q, serve_dns) (with_rcode req format_error, refl, refl)
asked-OneReply h up remote req (name ∷ more) q =
    rw (q, serve_dns) (serve_source-OneReply h up req name (remote_ip remote))

-- Every query, whatever its source, its question and the upstream's answer, is answered by exactly
-- one reply, and the reply carries the query's transaction id.
pub serve_dns-one_reply :
    (h : Handler) (up : Msg → Option Msg) (remote : RemoteAddr) (req : Msg)
    → (r : Reply) × (replies (serve_dns h up remote req) ≡ r ∷ []) × (reply_id r ≡ req.id)
serve_dns-one_reply h up remote req = asked-OneReply h up remote req req.question refl
