-- ===== src/Auth/Keys.antt =====
-- commons/pkg/auth/jwt.go: how the authorizer takes over the signing keys, once at the start and then at
-- each look at the endpoint. Package jwk, which finds a key in a set, is a parameter.
use yaghan.Base.{
  ◌≡◌, refl, sym, ap, ◌∙◌, Bool, true, false, ◌||◌, List, [], ◌∷◌, ◌++◌, Option, none, some,
  if◌then◌else◌, nat_beq, length, All, Bool-cases, Option-cases, inl, inr,
}
use yaghan.Base.Text.{Text}

-- A key of a set: its id, its algorithm where it names one, and the rest of it.
pub record Key : Type 0 where
  pub key_id : Text
  pub algorithm : Option Text
  pub material : Text

pub data ParseOption : Type 0 where
  with_clock with_skew : ParseOption
  with_required_claim with_audience : Text → ParseOption
  with_key : Text → Key → ParseOption

-- The configuration's ScopeKey and AllowedAudience, and whether jwk.Set.Index finds a key.
pub record KeyConfig : Type 0 where
  pub scope_key : Text
  pub allowed_audience : Text
  pub index : List Key → Key → Bool

pub record Authorizer : Type 0 where
  pub key_set : Option (List Key)
  pub options : List ParseOption

-- Whether a key of the second set is in the first.
unfoldable pub found_keys : KeyConfig → List Key → List Key → Bool
found_keys config current [] = false
found_keys config current (k ∷ keys) = config.index current k || found_keys config current keys

-- The options so far, with those of the keys; `false` where a key names no algorithm.
unfoldable pub key_options : List Key → List ParseOption → List ParseOption × Bool
key_options [] opts = (opts, true)
key_options (k ∷ keys) opts = elim k.algorithm [
  | none ↦ (opts, false)
  | some alg ↦ key_options keys (opts ++ with_key alg k ∷ [])
]

abbrev base_options : KeyConfig → List ParseOption
base_options config = with_clock ∷ with_skew ∷ with_required_claim config.scope_key ∷ []

unfoldable pub audience_options : KeyConfig → List ParseOption → List ParseOption
audience_options config opts =
    if nat_beq (length config.allowed_audience) 0
    then opts
    else opts ++ with_audience config.allowed_audience ∷ []

-- The part of setJWTOptions under the lock.
unfoldable pub install : KeyConfig → List Key → Authorizer × Bool
unfolding key_options audience_options
install config keys =
    let r = key_options keys (base_options config) in
    (
      record { key_set = some keys; options = if r.1 then audience_options config r.0 else r.0 },
      r.1,
    )

unfoldable pub set_jwt_options : KeyConfig → List Key → Authorizer → Authorizer × Bool
unfolding found_keys install
set_jwt_options config keys a = elim a.key_set [
  | none ↦ install config keys
  | some current ↦ if found_keys config current keys then install config keys else (a, true)
]

-- The looks at the endpoint, of which each has found a set.
unfoldable pub refresh : KeyConfig → List (List Key) → Authorizer → Authorizer
unfolding set_jwt_options
refresh config [] a = a
refresh config (keys ∷ later) a = refresh config later (set_jwt_options config keys a).0

-- The audiences that the options demand.
abbrev pub audiences : List ParseOption → List Text
audiences [] = []
audiences (with_audience aud ∷ opts) = aud ∷ audiences opts
audiences (with_clock ∷ opts) = audiences opts
audiences (with_skew ∷ opts) = audiences opts
audiences (with_required_claim c ∷ opts) = audiences opts
audiences (with_key alg k ∷ opts) = audiences opts

-- A key set of which no key is in another.
abbrev pub IsReplaced : KeyConfig → List Key → List Key → Type 0
IsReplaced config current keys = All (λ k. config.index current k ≡ false) keys

replaced-found_keys :
    (config : KeyConfig) (current keys : List Key)
    → IsReplaced config current keys
    → found_keys config current keys ≡ false
unfolding found_keys
replaced-found_keys config current [] h = refl
replaced-found_keys config current (k ∷ keys) h =
    rw h.0 (replaced-found_keys config current keys h.1)

set_jwt_options-replaced :
    (config : KeyConfig) (current keys : List Key) (a : Authorizer)
    → a.key_set ≡ some current
    → IsReplaced config current keys
    → (set_jwt_options config keys a).0 ≡ a
unfolding set_jwt_options
set_jwt_options-replaced config current keys a held h =
    rw (set_jwt_options, held, replaced-found_keys config current keys h)
      (ap (λ k. record { key_set = k; options = a.options }) held)

-- After the authorizer has taken over a key set, it keeps exactly this set and its options through any
-- number of looks at the endpoint that find sets of which no key is in it: a rotation that replaces all
-- the keys, also where it stays, is never taken over.
pub refresh-replaced :
    (config : KeyConfig) (current : List Key) (sets : List (List Key)) (a : Authorizer)
    → a.key_set ≡ some current
    → All (IsReplaced config current) sets
    → refresh config sets a ≡ a
unfolding refresh
refresh-replaced config current [] a held h = refl
refresh-replaced config current (keys ∷ sets) a held h =
    ap (refresh config sets) (set_jwt_options-replaced config current keys a held h.0)
    ∙ refresh-replaced config current sets a held h.1

audiences-snoc_key :
    (opts : List ParseOption) (alg : Text) (k : Key)
    → audiences (opts ++ with_key alg k ∷ []) ≡ audiences opts
audiences-snoc_key [] alg k = refl
audiences-snoc_key (with_audience aud ∷ opts) alg k =
    ap (λ l. aud ∷ l) (audiences-snoc_key opts alg k)
audiences-snoc_key (with_clock ∷ opts) alg k = audiences-snoc_key opts alg k
audiences-snoc_key (with_skew ∷ opts) alg k = audiences-snoc_key opts alg k
audiences-snoc_key (with_required_claim c ∷ opts) alg k = audiences-snoc_key opts alg k
audiences-snoc_key (with_key other j ∷ opts) alg k = audiences-snoc_key opts alg k

key_options-audiences :
    (keys : List Key) (opts : List ParseOption)
    → audiences (key_options keys opts).0 ≡ audiences opts
unfolding key_options
key_options-audiences [] opts = refl
key_options-audiences (k ∷ keys) opts = elim (Option-cases k.algorithm) [
  | inl absent ↦ rw (key_options, absent) refl
  | inr (alg, named) ↦
      rw (key_options, named)
        (key_options-audiences keys (opts ++ with_key alg k ∷ []) ∙ audiences-snoc_key opts alg k)
]

install-audiences :
    (config : KeyConfig) (keys : List Key)
    → (install config keys).1 ≡ false
    → audiences (install config keys).0.options ≡ []
unfolding install
install-audiences config keys h = rw h (key_options-audiences keys (base_options config))

-- A look at the endpoint that ends in an error, over a key without an algorithm, leaves an authorizer
-- that demands no audience of a token, whatever audience is configured and was demanded before.
pub set_jwt_options-audiences :
    (config : KeyConfig) (keys : List Key) (a : Authorizer)
    → (set_jwt_options config keys a).1 ≡ false
    → audiences (set_jwt_options config keys a).0.options ≡ []
unfolding set_jwt_options
set_jwt_options-audiences config keys a h = elim (Option-cases a.key_set) [
  | inl first ↦
      let same : set_jwt_options config keys a ≡ install config keys =
        rw (set_jwt_options, first) refl in
      rw same (install-audiences config keys (sym (ap (λ (r : Authorizer × Bool). r.1) same) ∙ h))
  | inr (current, held) ↦ elim (Bool-cases (found_keys config current keys)) [
    | inl shared ↦
        let same : set_jwt_options config keys a ≡ install config keys =
          rw (set_jwt_options, held, shared) refl in
        rw same (install-audiences config keys (sym (ap (λ (r : Authorizer × Bool). r.1) same) ∙ h))
    | inr replaced ↦
        let kept : (set_jwt_options config keys a).1 ≡ true =
          rw (set_jwt_options, held, replaced) refl in
        cc
  ]
]
