-- ===== src/Dns/Tests.antt =====
-- The DNS responder at a concrete policy, client and query.
use yaghan.Base.{◌*◌, ◌≡◌, refl, ◌↔◌, ◌⊎◌, true, false, [], ◌∷◌, ◌++◌, Option, some, All, arith}
use yaghan.Base.Text.{
  Text, codes, text_beq, to_lower, lower_byte, has_prefix, has_suffix, contains_byte,
}
use yaghan.Net.Addr.{Addr, v4}
use yaghan.Dns.Matcher.{
  wildcard_matcher, exact_matcher, matches, canonical_name, trim_dot, compile_matcher,
}
use yaghan.Dns.Matcher.Coverage.{wildcard_boundary}
use yaghan.Dns.Matcher.Compile.{Unrooted, compile_matcher_covers, Unrooted}
use yaghan.Dns.PolicyStore.{SandboxDnsPolicy, mode_allow, upsert, new_policy_store}
use yaghan.Dns.Handler.{
  a, Msg, RemoteAddr, udp_addr, Handler, HandlerOptions, second, serve_dns, remote_ip,
}
use yaghan.Dns.Handler.Policy.{sent, Forwarded, serve_dns-forwards_iff}
use yaghan.Dns.Handler.Snooping.{Reported, serve_dns-Reported}

wildcard_boundary_example :
    matches (wildcard_matcher (codes "*.ab") (codes "ab")) (codes "xab") ≡ false
unfolding canonical_name trim_dot to_lower lower_byte has_suffix text_beq
wildcard_boundary_example =
    wildcard_boundary (codes "*.ab") (codes "ab") (codes "xab") [] b'x' (omega arith) refl

compile_matcher_covers_example :
    (matches (wildcard_matcher (codes "*.Ab") (codes "ab")) (codes "x.aB.") ≡ true) ↔ (
      (base : Text) × Unrooted (codes "x.aB.") base
      × ((to_lower base ≡ to_lower (codes "Ab"))
          ⊎ ((sub : Text) × (to_lower base ≡ sub ++ b'.' ∷ to_lower (codes "Ab")))))
unfolding compile_matcher has_prefix text_beq to_lower lower_byte contains_byte
compile_matcher_covers_example =
    compile_matcher_covers (codes "Ab") (codes "x.aB.")
      (wildcard_matcher (codes "*.Ab") (codes "ab")) refl

abbrev policy : SandboxDnsPolicy
policy = record {
  index = 3;
  namespace_name = codes "vm-ns3";
  mode = mode_allow;
  matchers = exact_matcher (codes "ab") ∷ [];
}

abbrev source : Addr
source = v4 0x0a00000e

abbrev options : HandlerOptions
options = record {
  store = some (upsert source policy new_policy_store);
  has_upstream = true;
  has_snooper = true;
  min_entry_ttl = 0;
  max_entry_ttl = 0;
  forward_timeout = 0;
}

abbrev responder : Handler
responder = record {
  store = upsert source policy new_policy_store;
  min_ttl = 30 * second;
  max_ttl = 300 * second;
  forward_timeout = 5 * second;
}

abbrev client : RemoteAddr
client = udp_addr (10 ∷ 0 ∷ 0 ∷ 14 ∷ [])

abbrev query : Msg
query = record { id = 9; question = codes "ab" ∷ []; answer = [] }

abbrev upstream : Msg → Option Msg
upstream m = some (record m { id = 77; answer = a (1 ∷ 2 ∷ 3 ∷ 4 ∷ []) 5 ∷ [] })

serve_dns-forwards_iff_example :
    (Forwarded responder client (codes "ab")
      → sent (serve_dns responder upstream client query) ≡ query ∷ [])
    × (¬ Forwarded responder client (codes "ab")
        → sent (serve_dns responder upstream client query) ≡ [])
serve_dns-forwards_iff_example =
    serve_dns-forwards_iff responder upstream client query (codes "ab") [] refl

serve_dns-Reported_example :
    All
      (Reported responder (remote_ip client) (codes "ab"))
      (serve_dns responder upstream client query)
serve_dns-Reported_example =
    serve_dns-Reported responder upstream client query (codes "ab") [] (omega arith) refl
