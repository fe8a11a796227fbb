-- ===== src/Dns/Matcher.antt =====
-- daemon/pkg/dns/matcher.go: domain patterns and the names they cover. Texts are ASCII, as the
-- validator of the protocol demands of the patterns.
pub mod Coverage
pub mod Compile
use yaghan.Base.{
  ℕ, ◌+◌, ◌-◌, ◌≡◌, refl, Bool, true, false, ◌&&◌, ◌||◌, List, [], ◌∷◌, ◌++◌, length, drop, take,
  if◌then◌else◌, ◌==◌,
}
use yaghan.Base.Text.{Text, codes, text_eq, has_prefix, has_suffix, contains_byte, to_lower}

-- The two implementations of the interface DomainMatcher.
pub data DomainMatcher : Type 0 where
  exact_matcher : Text → DomainMatcher
  wildcard_matcher : Text → Text → DomainMatcher

pub data CompileError : Type 0 where
  empty_pattern : CompileError
  invalid_wildcard : Text → CompileError
  misplaced_wildcard : Text → CompileError
  compiling : Text → CompileError → CompileError

pub data Compiled {ℓ} (A : Type ℓ) : Type ℓ where
  compiled : A → Compiled A
  refused : CompileError → Compiled A

infixl 5 ◌>>=◌
abbrev pub ◌>>=◌ {ℓ κ} : {A : Type ℓ} {B : Type κ} → Compiled A → (A → Compiled B) → Compiled B
compiled a >>= f = f a
refused e >>= f = refused e

-- strings.TrimSuffix(name, ".")
unfoldable pub trim_dot : Text → Text
trim_dot name = if has_suffix name (b'.' ∷ []) then take (length name - 1) name else name

unfoldable pub canonical_name : Text → Text
canonical_name name = to_lower (trim_dot name)

unfoldable pub matches : DomainMatcher → Text → Bool
matches (exact_matcher pattern_text) name = canonical_name name == pattern_text
matches (wildcard_matcher pattern_text suffix) name =
    canonical_name name == suffix || has_suffix (canonical_name name) (b'.' ∷ suffix)

unfoldable pub compile_matcher : Text → Compiled DomainMatcher
compile_matcher p =
    if p == []
    then refused empty_pattern
    else if has_prefix p (codes "*.")
    then (let suffix = to_lower (drop 2 p) in
        if suffix == [] || contains_byte suffix b'*'
        then refused (invalid_wildcard p)
        else compiled (wildcard_matcher p suffix))
    else if contains_byte p b'*'
    then refused (misplaced_wildcard p)
    else compiled (exact_matcher (to_lower p))

-- The error of one entry, wrapped with the entry.
unfoldable pub compile_entry : Text → Compiled DomainMatcher
compile_entry p = elim (compile_matcher p) [
  | compiled m ↦ compiled m
  | refused e ↦ refused (compiling p e)
]

unfoldable pub compile_matchers : List Text → Compiled (List DomainMatcher)
compile_matchers [] = compiled []
compile_matchers (p ∷ ps) = do m ← compile_entry p; ms ← compile_matchers ps; compiled (m ∷ ms)

unfoldable pub match_any : List DomainMatcher → Text → Bool
match_any [] name = false
match_any (m ∷ ms) name = matches m name || match_any ms name
