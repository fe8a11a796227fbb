-- ===== src/Dns/PolicyStore/Laws.antt =====
-- The policy store as a map of addresses.
use yaghan.Base.{◌≡◌, refl, none, some, ◌==◌, if◌then◌else◌}
use yaghan.Base.Dict.{lookup, lookup-insert, lookup-delete}
use yaghan.Net.Addr.{Addr, addr_eq}
use yaghan.Dns.PolicyStore.{SandboxDnsPolicy, PolicyStore, new_policy_store, upsert, remove, find}

pub find-new : (a : Addr) → find a new_policy_store ≡ none
unfolding find new_policy_store lookup
find-new a = refl

pub find-upsert :
    (a b : Addr) (p : SandboxDnsPolicy) (s : PolicyStore)
    → find b (upsert a p s) ≡ (if a == b then some p else find b s)
unfolding find upsert
find-upsert a b p s = lookup-insert a b p s.by_src

pub find-remove :
    (a b : Addr) (s : PolicyStore) → find b (remove a s) ≡ (if a == b then none else find b s)
unfolding find remove
find-remove a b s = lookup-delete a b s.by_src
