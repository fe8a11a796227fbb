-- ===== src/Auth/Grants.antt =====
-- Which calls commons/pkg/auth/jwt.go lets through.
use yaghan.Base.{
  ◌++◌, map, drop, drop-append, ◌≡◌, ◌≢◌, ◌↔◌, ◌⊎◌, refl, sym, ap, ◌∙◌, inl, inr, true, false, List,
  [], ◌∷◌, Option, none, some, nat_beq, length, Bool-cases, Option-cases, arith,
}
use mathlib.Core.Path.{subst}
use yaghan.Base.Text.{has_prefix, has_prefix-split, Text, codes, text_eq, text_beq, text_beq_iff}
use yaghan.Base.Dict.{insert, lookup, lookup-insert}
use yaghan.Auth.{
  fields, trim_prefix, MethodScopes, new_method_scopes, contains, is_empty, any_in, check, Declared,
  unknown, not_text, required_scopes, scopes, Cache, method_name, get_scopes, Actor, Token,
  parse_actor, AuthError, allowed, denied, JwtConfig, Metadata, token_of, authorize_token,
  authorize_scopes, authorize, missing_token, invalid_token, no_scope_claim, insufficient_scopes,
  not_verified,
}

abbrev pub Member : Text → List Text → Type 0
Member s [] = ⊥
Member s (x ∷ xs) = (x ≡ s) ⊎ Member s xs

contains_iff : (s : Text) (xs : List Text) → (contains s xs ≡ true) ↔ Member s xs
unfolding contains
contains_iff s [] = (λ h. cc, λ h. absurd h)
contains_iff s (x ∷ xs) = (
  λ h. elim (Bool-cases (text_beq x s)) [
    | inl same ↦ inl ((text_beq_iff x s).0 same)
    | inr other ↦ inr ((contains_iff s xs).0 (later other h))
  ],
  λ m. elim m [
    | inl same ↦ rw ((text_beq_iff x s).1 same) refl
    | inr more ↦ last ((contains_iff s xs).1 more)
  ],
)
  where
    later : text_beq x s ≡ false → contains s (x ∷ xs) ≡ true → contains s xs ≡ true
    later other h = ground arith

    last : contains s xs ≡ true → contains s (x ∷ xs) ≡ true
    last h = ground arith

-- A scope that both lists have.
abbrev pub Common : List Text → List Text → Type 0
Common required client = (s : Text) × Member s client × Member s required

any_in_skip :
    (x : Text) (required xs : List Text)
    → contains x required ≡ false
    → any_in required (x ∷ xs) ≡ any_in required xs
unfolding any_in
any_in_skip x required xs lacks = rw lacks refl

any_in-Common : (required xs : List Text) → any_in required xs ≡ true → Common required xs
unfolding any_in
any_in-Common required [] h = cc
any_in-Common required (x ∷ xs) h = elim (Bool-cases (contains x required)) [
  | inl has ↦ (x, inl refl, (contains_iff x required).0 has)
  | inr lacks ↦
      let (s, m, n) = any_in-Common required xs (sym (any_in_skip x required xs lacks) ∙ h) in
      (s, inr m, n)
]

any_in_later :
    (x : Text) (required xs : List Text)
    → any_in required xs ≡ true
    → any_in required (x ∷ xs) ≡ true
unfolding any_in
any_in_later x required xs h = ground arith

Common-any_in : (required xs : List Text) → Common required xs → any_in required xs ≡ true
unfolding any_in
Common-any_in required [] (s, m, n) = absurd m
Common-any_in required (x ∷ xs) (s, inl same, n) =
    rw ((contains_iff x required).1 (subst (λ t. Member t required) (sym same) n)) refl
Common-any_in required (x ∷ xs) (s, inr m, n) =
    any_in_later x required xs (Common-any_in required xs (s, m, n))

-- A text less a prefix, which it may have or not.
abbrev pub Trimmed : Text → Text → Text → Type 0
Trimmed value prefix rest =
    (value ≡ prefix ++ rest) ⊎ (((r : Text) → value ≢ prefix ++ r) × (value ≡ rest))

has_prefix-append : (p r : Text) → has_prefix (p ++ r) p ≡ true
unfolding has_prefix
has_prefix-append [] r = refl
has_prefix-append (c ∷ p) r = ground (arith, has_prefix-append p r)

trim_prefix-Trimmed :
    (value prefix rest : Text) → trim_prefix value prefix ≡ rest → Trimmed value prefix rest
unfolding trim_prefix
trim_prefix-Trimmed value prefix rest h = elim (Bool-cases (has_prefix value prefix)) [
  | inl has ↦
      let cut : trim_prefix value prefix ≡ drop (length prefix) value =
        rw (trim_prefix, has) refl in
      inl (has_prefix-split value prefix has ∙ ap (λ t. prefix ++ t) (sym cut ∙ h))
  | inr lacks ↦
      let whole : trim_prefix value prefix ≡ value = rw (trim_prefix, lacks) refl in
      inr (
        λ r e. cc (ap (λ v. has_prefix v prefix) e, has_prefix-append prefix r, lacks),
        sym whole ∙ h,
      )
]

Trimmed-trim_prefix :
    (value prefix rest : Text) → Trimmed value prefix rest → trim_prefix value prefix ≡ rest
unfolding trim_prefix
Trimmed-trim_prefix value prefix rest (inl e) =
    rw (e, trim_prefix, has_prefix-append prefix rest) (drop-append prefix rest)
Trimmed-trim_prefix value prefix rest (inr (none_fits, e)) =
    elim (Bool-cases (has_prefix value prefix)) [
      | inl has ↦ absurd (none_fits _ (has_prefix-split value prefix has))
      | inr lacks ↦ rw (trim_prefix, lacks) e
    ]

Member-map :
    (f : Text → Text) (s : Text) (xs : List Text)
    → Member s (map f xs)
    → (w : Text) × Member w xs × (f w ≡ s)
Member-map f s [] m = absurd m
Member-map f s (x ∷ xs) (inl same) = (x, inl refl, same)
Member-map f s (x ∷ xs) (inr m) = let (w, n, e) = Member-map f s xs m in (w, inr n, e)

map-Member :
    (f : Text → Text) (s w : Text) (xs : List Text) → Member w xs → f w ≡ s → Member s (map f xs)
map-Member f s w [] m e = absurd m
map-Member f s w (x ∷ xs) (inl same) e = inl (ap f same ∙ e)
map-Member f s w (x ∷ xs) (inr m) e = inr (map-Member f s w xs m e)

-- One of the words of the claim, less the prefix.
abbrev pub Claimed : Text → Text → Text → Type 0
Claimed claim prefix s = (w : Text) × Member w (fields claim) × Trimmed w prefix s

Member-Claimed :
    (claim prefix s : Text)
    → Member s (new_method_scopes claim prefix).scope_list
    → Claimed claim prefix s
unfolding new_method_scopes
Member-Claimed claim [] s m = (s, m, inl refl)
Member-Claimed claim (c ∷ prefix) s m =
    let (w, n, e) = Member-map (λ t. trim_prefix t (c ∷ prefix)) s (fields claim) m in
    (w, n, trim_prefix-Trimmed w (c ∷ prefix) s e)

Claimed-Member :
    (claim prefix s : Text)
    → Claimed claim prefix s
    → Member s (new_method_scopes claim prefix).scope_list
unfolding new_method_scopes
Claimed-Member claim [] s (w, m, inl e) = subst (λ t. Member t (fields claim)) e m
Claimed-Member claim [] s (w, m, inr (none_fits, e)) = absurd (none_fits w refl)
Claimed-Member claim (c ∷ prefix) s (w, m, t) =
    map-Member (λ v. trim_prefix v (c ∷ prefix)) s w (fields claim) m
      (Trimmed-trim_prefix w (c ∷ prefix) s t)

-- The header of a call holds this token.
abbrev pub Header : Option Metadata → Text → Type 0
Header meta text =
    (m : Metadata) × (value : Text) × (values : List Text) × (meta ≡ some m)
    × (lookup (codes "authorization") m ≡ some (value ∷ values))
    × Trimmed value (codes "Bearer ") text
    × (text ≢ [])

-- The token of a call is verified, and its claim of scopes has one of those required, once the
-- configured prefix is removed.
abbrev pub Granted : JwtConfig → Option Metadata → List Text → Type 0
Granted config meta required =
    (text : Text) × (token : Token) × (claim : Text) × Header meta text
    × (config.parse text ≡ some token)
    × (token.claim config.scope_key ≡ some claim)
    × ((s : Text) × Claimed claim config.remove_scope_prefix s × Member s required)

not_nil : (t : Text) → nat_beq (length t) 0 ≡ false → t ≢ []
not_nil [] h e = cc
not_nil (c ∷ t) h e = cc

is_nil : (t : Text) → t ≢ [] → nat_beq (length t) 0 ≡ false
is_nil [] h = absurd (h refl)
is_nil (c ∷ t) h = ground arith

inl-injective : {s t : Text} → ◌≡◌ {A = Text ⊎ AuthError} (inl s) (inl t) → s ≡ t
inl-injective h = cc

header-cases :
    (o : Option (List Text))
    → (o ≡ none) ⊎ ((o ≡ some []) ⊎ ((v : Text) × (vs : List Text) × (o ≡ some (v ∷ vs))))
header-cases none = inl refl
header-cases (some []) = inr (inl refl)
header-cases (some (v ∷ vs)) = inr (inr (v, vs, refl))

token_of-Header :
    (meta : Option Metadata) (text : Text) → token_of meta ≡ inl text → Header meta text
unfolding token_of
token_of-Header none text h = cc
token_of-Header (some m) text h = elim (header-cases (lookup (codes "authorization") m)) [
  | inl missing ↦
      let refused : token_of (some m) ≡ inr missing_token = rw (token_of, missing) refl in cc
  | inr (inl empty) ↦
      let refused : token_of (some m) ≡ inr missing_token = rw (token_of, empty) refl in cc
  | inr (inr (value, values, found)) ↦
      let token = trim_prefix value (codes "Bearer ") in
      elim (Bool-cases (nat_beq (length token) 0)) [
        | inl nothing ↦
            let refused : token_of (some m) ≡ inr invalid_token =
              rw (token_of, found, nothing) refl in
            cc
        | inr full ↦
            let taken : token_of (some m) ≡ inl token = rw (token_of, found, full) refl in
            let same : text ≡ token = inl-injective (sym h ∙ taken) in
            (
              m,
              value,
              values,
              refl,
              found,
              trim_prefix-Trimmed value (codes "Bearer ") text (sym same),
              subst (λ t. t ≢ []) (sym same) (not_nil token full),
            )
      ]
]

Header-token_of :
    (meta : Option Metadata) (text : Text) → Header meta text → token_of meta ≡ inl text
unfolding token_of
Header-token_of meta text (m, value, values, given, found, trimmed, full) =
    let same = sym (Trimmed-trim_prefix value (codes "Bearer ") text trimmed) in
    rw (given, token_of, found)
      (rw (is_nil (trim_prefix value (codes "Bearer ")) (subst (λ t. t ≢ []) same full))
        (ap inl (sym same)))

authorize_token_scope :
    (config : JwtConfig) (required : MethodScopes) (token : Token) (actor : Option Actor)
    → authorize_token config required token ≡ allowed actor
    → (claim : Text) × (token.claim config.scope_key ≡ some claim)
      × Common required.scope_list (new_method_scopes claim config.remove_scope_prefix).scope_list
unfolding authorize_token check
authorize_token_scope config required token actor h =
    elim (Option-cases (token.claim config.scope_key)) [
      | inl absent ↦
          let refused : authorize_token config required token
              ≡ denied (some (parse_actor token)) no_scope_claim =
            rw (authorize_token, absent) refl in
          cc
      | inr (claim, given) ↦
          let client = new_method_scopes claim config.remove_scope_prefix in
          elim (Bool-cases (any_in required.scope_list client.scope_list)) [
            | inl enough ↦
                (claim, given, any_in-Common required.scope_list client.scope_list enough)
            | inr lacking ↦
                let refused : authorize_token config required token
                    ≡ denied (some (parse_actor token)) insufficient_scopes =
                  rw (authorize_token, given, lacking) refl in
                cc
          ]
    ]

-- A method with scopes lets a call through exactly when its token grants one of them.
abbrev pub Passes : JwtConfig → Option Metadata → MethodScopes → Type 0
Passes config meta required =
    (actor : Option Actor) × (authorize_scopes config meta (scopes required) ≡ allowed actor)

empty_list : (xs : List Text) → nat_beq (length xs) 0 ≡ true → xs ≡ []
empty_list [] h = refl
empty_list (x ∷ xs) h = ground arith

token-cases : (r : Text ⊎ AuthError) → ((t : Text) × (r ≡ inl t)) ⊎ ((e : AuthError) × (r ≡ inr e))
token-cases (inl t) = inl (t, refl)
token-cases (inr e) = inr (e, refl)

Passes-Granted :
    (config : JwtConfig) (meta : Option Metadata) (required : MethodScopes)
    → Passes config meta required
    → (required.scope_list ≡ []) ⊎ Granted config meta required.scope_list
unfolding authorize_scopes is_empty
Passes-Granted config meta required (actor, h) = elim (Bool-cases (is_empty required)) [
  | inl open_method ↦ inl (empty_list required.scope_list open_method)
  | inr closed ↦ inr (elim (token-cases (token_of meta)) [
    | inr (e, refused) ↦
        let denial : authorize_scopes config meta (scopes required) ≡ denied none e =
          rw (authorize_scopes, closed, refused) refl in
        cc
    | inl (text, taken) ↦ elim (Option-cases (config.parse text)) [
      | inl bad ↦
          let denial : authorize_scopes config meta (scopes required) ≡ denied none not_verified =
            rw (authorize_scopes, closed, taken, bad) refl in
          cc
      | inr (token, verified) ↦
          let checked : authorize_scopes config meta (scopes required)
              ≡ authorize_token config required token =
            rw (authorize_scopes, closed, taken, verified) refl in
          let (claim, given, common) =
            authorize_token_scope config required token actor (sym checked ∙ h) in
          (
            text,
            token,
            claim,
            token_of-Header meta text taken,
            verified,
            given,
            (common.0, Member-Claimed claim config.remove_scope_prefix common.0 common.1, common.2),
          )
    ]
  ])
]

Granted-Passes :
    (config : JwtConfig) (meta : Option Metadata) (required : MethodScopes)
    → (required.scope_list ≡ []) ⊎ Granted config meta required.scope_list
    → Passes config meta required
unfolding authorize_scopes is_empty authorize_token check
Granted-Passes config meta required (inl none_required) =
    (none, rw (authorize_scopes, none_required) refl)
Granted-Passes config meta required
      (inr (text, token, claim, header, verified, given, (s, has, wanted))) =
    elim (Bool-cases (is_empty required)) [
      | inl open_method ↦ (none, rw (authorize_scopes, open_method) refl)
      | inr closed ↦ (
        some (parse_actor token),
        rw
            (
              authorize_scopes,
              closed,
              Header-token_of meta text header,
              verified,
              authorize_token,
              given,
              check,
              Common-any_in required.scope_list
                  (new_method_scopes claim config.remove_scope_prefix).scope_list
                  (s, Claimed-Member claim config.remove_scope_prefix s has, wanted),
            )
            refl,
      )
    ]

-- What the registry declares of a method, as the cache keeps it.
abbrev pub EntryOf : Declared → Option MethodScopes → Type 0
EntryOf unknown entry = entry ≡ none
EntryOf not_text entry = ⊥
EntryOf (required_scopes text) entry = entry ≡ some (new_method_scopes text [])

-- A cache that holds only what the registry declares.
abbrev pub IsCoherent : (Text → Declared) → Cache → Type 0
IsCoherent registry cache =
    (method : Text) (entry : Option MethodScopes)
    → lookup method cache ≡ some entry
    → EntryOf (registry (method_name method)) entry

-- The scopes of a declared method, from the cache or not.
get_scopes-declared :
    (registry : Text → Declared) (method : Text) (cache : Cache) (text : Text)
    → method ≢ []
    → registry (method_name method) ≡ required_scopes text
    → IsCoherent registry cache
    → (get_scopes registry method cache).1 ≡ scopes (new_method_scopes text [])
unfolding get_scopes
get_scopes-declared registry [] cache text named declared coherent = absurd (named refl)
get_scopes-declared registry (c ∷ method) cache text named declared coherent =
    elim (Option-cases (lookup (c ∷ method) cache)) [
      | inl fresh ↦ rw (get_scopes, fresh, declared) refl
      | inr (entry, held) ↦
          let same : entry ≡ some (new_method_scopes text []) =
            subst (λ d. EntryOf d entry) declared (coherent (c ∷ method) entry held) in
          rw (get_scopes, held, same) refl
    ]

insert-IsCoherent :
    (registry : Text → Declared) (key : Text) (value : Option MethodScopes) (cache : Cache)
    → EntryOf (registry (method_name key)) value
    → IsCoherent registry cache
    → IsCoherent registry (insert key value cache)
insert-IsCoherent registry key value cache fits coherent method entry held =
    elim (Bool-cases (text_beq key method)) [
      | inl same ↦
          let here : some value ≡ some entry =
            sym (lookup-insert key method value cache ∙ rw same refl) ∙ held in
          let value-entry : value ≡ entry = cc (here) in
          subst (λ k. EntryOf (registry (method_name k)) entry) ((text_beq_iff key method).0 same)
            (subst (EntryOf (registry (method_name key))) value-entry fits)
      | inr other ↦
          coherent method entry (sym (lookup-insert key method value cache ∙ rw other refl) ∙ held)
    ]

Declared-cases :
    (d : Declared) → (d ≡ unknown) ⊎ ((d ≡ not_text) ⊎ ((text : Text) × (d ≡ required_scopes text)))
Declared-cases unknown = inl refl
Declared-cases not_text = inr (inl refl)
Declared-cases (required_scopes text) = inr (inr (text, refl))

get_scopes-IsCoherent :
    (registry : Text → Declared) (method : Text) (cache : Cache)
    → IsCoherent registry cache
    → IsCoherent registry (get_scopes registry method cache).0
unfolding get_scopes
get_scopes-IsCoherent registry [] cache coherent = coherent
get_scopes-IsCoherent registry (c ∷ method) cache coherent =
    elim (Option-cases (lookup (c ∷ method) cache)) [
      | inr (entry, held) ↦ rw (get_scopes, held) coherent
      | inl fresh ↦ elim (Declared-cases (registry (method_name (c ∷ method)))) [
        | inl missing ↦
            rw (get_scopes, fresh, missing)
              (insert-IsCoherent registry (c ∷ method) none cache
                (subst (λ d. EntryOf d none) (sym missing) refl) coherent)
        | inr (inl wrong) ↦ rw (get_scopes, fresh, wrong) coherent
        | inr (inr (text, declared)) ↦
            let entry = some (new_method_scopes text []) in
            rw (get_scopes, fresh, declared)
              (insert-IsCoherent registry (c ∷ method) entry cache
                (subst (λ d. EntryOf d entry) (sym declared) refl) coherent)
      ]
    ]

-- A call of a method that declares its scopes goes through exactly when it declares none or the call's
-- token grants one of them: its first authorization value, less `Bearer `, is a token that package jwt
-- verifies, with a claim of scopes of which one, less the configured prefix, is declared by the method.
-- This holds with any cache that agrees with the registry, and the cache still agrees afterwards.
pub authorize_iff :
    (config : JwtConfig) (registry : Text → Declared) (meta : Option Metadata) (method text : Text)
    (cache : Cache)
    → method ≢ []
    → registry (method_name method) ≡ required_scopes text
    → IsCoherent registry cache
    → (((actor : Option Actor) × ((authorize config registry meta method cache).1 ≡ allowed actor))
        ↔ ((fields text ≡ []) ⊎ Granted config meta (fields text)))
      × IsCoherent registry (authorize config registry meta method cache).0
unfolding authorize new_method_scopes
authorize_iff config registry meta method text cache named declared coherent =
    let required = new_method_scopes text [] in
    let found = get_scopes-declared registry method cache text named declared coherent in
    (
      (
        λ (actor, h).
            Passes-Granted config meta required
              (actor, ap (authorize_scopes config meta) (sym found) ∙ h),
        λ granted.
            let (actor, passed) = Granted-Passes config meta required granted in
            (actor, ap (authorize_scopes config meta) found ∙ passed),
      ),
      get_scopes-IsCoherent registry method cache coherent,
    )
