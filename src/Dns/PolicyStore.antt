-- ===== src/Dns/PolicyStore.antt =====
-- daemon/pkg/dns/policy_store.go: the policies by source address. The lock makes each operation
-- atomic, so a store is its map.
pub mod Laws
use yaghan.Base.{ℕ, List, [], Bool, true, false, Option, none, some, length}
use yaghan.Base.Text.{Text}
use yaghan.Base.Dict.{lookup, insert, delete}
use yaghan.Net.Addr.{Addr, addr_eq}
use yaghan.Dns.Matcher.{DomainMatcher}

-- `mode_other` stands for the values of the integer type that have no name.
pub data EgressMode : Type 0 where
  mode_none mode_allow mode_deny : EgressMode
  mode_other : ℕ → EgressMode

pub record SandboxDnsPolicy : Type 0 where
  pub index : ℕ
  pub namespace_name : Text
  pub mode : EgressMode
  pub matchers : List DomainMatcher

pub record PolicyStore : Type 0 where
  pub by_src : List (Addr × SandboxDnsPolicy)

unfoldable pub new_policy_store : PolicyStore
new_policy_store = record { by_src = [] }

unfoldable pub upsert : Addr → SandboxDnsPolicy → PolicyStore → PolicyStore
upsert src policy s = record { by_src = insert src policy s.by_src }

unfoldable pub remove : Addr → PolicyStore → PolicyStore
remove src s = record { by_src = delete src s.by_src }

unfoldable pub find : Addr → PolicyStore → Option SandboxDnsPolicy
find src s = lookup src s.by_src

unfoldable pub len : PolicyStore → ℕ
len s = length s.by_src
