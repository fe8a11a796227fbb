-- ===== src/Dns/Handler/Snooping.antt =====
-- What the responder reports to the firewall: only answers under an allow policy, for bounded times.
use yaghan.Base.{
  ℕ, ◌*◌, ◌≡◌, ◌≤◌, ◌<◌, inl, inr, refl, true, List, [], ◌∷◌, Option, none, some, Bool-cases, arith,
  All, All-append,
}
use yaghan.Base.Text.{Text}
use yaghan.Net.Addr.{Addr}
use yaghan.Dns.Matcher.{match_any}
use yaghan.Dns.PolicyStore.{EgressMode, mode_allow, SandboxDnsPolicy, find}
use yaghan.Dns.Handler.{
  Rr, Msg, relayed, Action, wrote, exchanged, noted, RemoteAddr, HandlerOptions, Handler, made,
  new_handler, remote_ip, observed, snoop, survives, relay, serve_policy, serve_source, serve_dns,
  note_of, is_allow, clamp_ttl, second,
}

-- A constructed handler has a positive floor and ceiling, so that no observation can be reported
-- with a time of zero, which the kernel would take for a permanent entry; with both left at their
-- defaults the floor lies below the ceiling.
pub new_handler-positive :
    (opts : HandlerOptions) (h : Handler)
    → new_handler opts ≡ made h
    → (0 < h.min_ttl)
      × (0 < h.max_ttl)
      × (0 < h.forward_timeout)
      × (opts.min_entry_ttl ≡ 0 → opts.max_entry_ttl ≡ 0 → h.min_ttl ≤ h.max_ttl)
unfolding new_handler
new_handler-positive opts h e = ground arith

pub clamp_ttl-bounds :
    (ttl floor ceiling : ℕ)
    → floor ≤ ceiling
    → (floor ≤ clamp_ttl ttl floor ceiling) × (clamp_ttl ttl floor ceiling ≤ ceiling)
unfolding clamp_ttl
clamp_ttl-bounds ttl floor ceiling h = ground arith

-- What one report may be: made for the policy registered for the source, which is an allow policy
-- that covers the name, and for a time within the handler's bounds.
abbrev pub Reported : Handler → Option Addr → Text → Action → Type 0
Reported h src name (noted q addr ttl) =
    (from : Addr) × (src ≡ some from)
    × (find from h.store ≡ some q)
    × (q.mode ≡ mode_allow)
    × (match_any q.matchers name ≡ true)
    × (h.min_ttl ≤ ttl)
    × (ttl ≤ h.max_ttl)
Reported h src name (wrote r) = Unit {0}
Reported h src name (exchanged m) = Unit {0}

module _ (h : Handler) (bounds : h.min_ttl ≤ h.max_ttl) (name : Text) (src : Addr) where
  module _ (p : SandboxDnsPolicy) (registered : find src h.store ≡ some p) where
    note_of-Reported :
        (o : Option (Addr × ℕ)) (rest : List Action)
        → p.mode ≡ mode_allow
        → match_any p.matchers name ≡ true
        → All (Reported h (some src) name) rest
        → All (Reported h (some src) name) (note_of h p o rest)
    note_of-Reported none rest m c r = r
    note_of-Reported (some (addr, raw)) rest m c r =
        let t = clamp_ttl-bounds (raw * second) h.min_ttl h.max_ttl bounds in
        ((src, refl, registered, m, c, t.0, t.1), r)

    snoop-Reported :
        (rrs : List Rr)
        → p.mode ≡ mode_allow
        → match_any p.matchers name ≡ true
        → All (Reported h (some src) name) (snoop h p rrs)
    unfolding snoop
    snoop-Reported [] m c = tt
    snoop-Reported (rr ∷ rrs) m c =
        note_of-Reported (observed rr) (snoop h p rrs) m c (snoop-Reported rrs m c)

    is_allow-mode : (m : EgressMode) → is_allow m ≡ true → m ≡ mode_allow
    is_allow-mode m e = ground arith

    relay-Reported :
        (req : Msg) (o : Option Msg)
        → survives p.mode (match_any p.matchers name) ≡ true
        → All (Reported h (some src) name) (relay h p req o)
    unfolding relay survives
    relay-Reported req none e = (tt, tt)
    relay-Reported req (some resp) e = elim (Bool-cases (is_allow p.mode)) [
      | inr f ↦ rw f (tt, tt)
      | inl t ↦ rw t (
          let m = is_allow-mode p.mode t in
          All-append (Reported h (some src) name) (snoop h p resp.answer)
            (wrote (relayed (record resp { id = req.id })) ∷ [])
            (snoop-Reported resp.answer m (ground arith)) (tt, tt))
    ]

  serve_policy-Reported :
      (up : Msg → Option Msg) (req : Msg) (o : Option SandboxDnsPolicy)
      → find src h.store ≡ o
      → All (Reported h (some src) name) (serve_policy h up req name o)
  unfolding serve_policy
  serve_policy-Reported up req none e = (tt, tt)
  serve_policy-Reported up req (some p) e =
      elim (Bool-cases (survives p.mode (match_any p.matchers name))) [
        | inl t ↦ rw t (tt, relay-Reported p e req (up req) t)
        | inr f ↦ rw f (tt, tt)
      ]

serve_source-Reported :
    (h : Handler) (up : Msg → Option Msg) (req : Msg) (name : Text) (o : Option Addr)
    → h.min_ttl ≤ h.max_ttl
    → All (Reported h o name) (serve_source h up req name o)
unfolding serve_source
serve_source-Reported h up req name none b = (tt, tt)
serve_source-Reported h up req name (some src) b =
    serve_policy-Reported h b name src up req (find src h.store) refl

-- With the floor at most the ceiling, every address that a query makes the responder report to the
-- firewall is reported under the allow policy registered for the query's source, for a name that
-- the policy covers, and for a time between the floor and the ceiling.
pub serve_dns-Reported :
    (h : Handler) (up : Msg → Option Msg) (remote : RemoteAddr) (req : Msg) (name : Text)
    (more : List Text)
    → h.min_ttl ≤ h.max_ttl
    → req.question ≡ name ∷ more
    → All (Reported h (remote_ip remote) name) (serve_dns h up remote req)
unfolding serve_dns
serve_dns-Reported h up remote req name more b q =
    rw (q, serve_dns) (serve_source-Reported h up req name (remote_ip remote) b)
