-- ===== src/Auth.antt =====
-- commons/pkg/auth/authorizer.go and jwt.go: the scopes of a gRPC method, and the check of the access token
-- of a call. Package jwt, which parses and verifies a token, and the registry of the protocol's methods
-- are parameters.
pub mod Grants
pub mod Keys
mod Tests
use yaghan.Base.{
  ℕ, zero, suc, ◌≡◌, Bool, true, false, ◌&&◌, ◌||◌, List, [], ◌∷◌, ◌++◌, Option, none, some,
  if◌then◌else◌, nat_beq, length, map, drop, ◌==◌, ◌⊎◌, inl, inr,
}
use yaghan.Base.Text.{Text, codes, has_prefix, text_beq, text_eq}
use yaghan.Base.Dict.{insert, lookup}
use yaghan.Base.Integer.{is_space}

-- strings.Fields, with the word that is being read.
abbrev close_word : Text → List Text → List Text
close_word [] words = words
close_word (c ∷ word) words = (c ∷ word) ∷ words

unfoldable pub fields_from : Text → Text → List Text
fields_from word [] = close_word word []
fields_from word (c ∷ s) =
    let next = fields_from [] s in
    let longer = fields_from (word ++ c ∷ []) s in
    if is_space c then close_word word next else longer

unfoldable pub fields : Text → List Text
unfolding fields_from
fields s = fields_from [] s

-- strings.TrimPrefix
unfoldable pub trim_prefix : Text → Text → Text
trim_prefix s prefix = if has_prefix s prefix then drop (length prefix) s else s

pub record MethodScopes : Type 0 where
  pub scope_list : List Text

-- The prefix is RemoveScopePrefix of the configuration.
unfoldable pub new_method_scopes : Text → Text → MethodScopes
unfolding fields trim_prefix
new_method_scopes scopes [] = record { scope_list = fields scopes }
new_method_scopes scopes (c ∷ prefix) = record {
  scope_list = map (λ s. trim_prefix s (c ∷ prefix)) (fields scopes);
}

unfoldable pub contains : Text → List Text → Bool
contains scope [] = false
contains scope (s ∷ scopes) = s == scope || contains scope scopes

-- The scope sets are read only for what they contain and whether they are empty.
unfoldable pub is_empty : MethodScopes → Bool
is_empty m = nat_beq (length m.scope_list) 0

unfoldable pub any_in : List Text → List Text → Bool
unfolding contains
any_in required [] = false
any_in required (s ∷ scopes) = contains s required || any_in required scopes

unfoldable pub check : MethodScopes → MethodScopes → Bool
unfolding any_in
check required client = any_in required.scope_list client.scope_list

-- What the registry of the protocol knows of a method.
pub data Declared : Type 0 where
  unknown not_text : Declared
  required_scopes : Text → Declared

-- The scopes of a method: `nil` where there is no descriptor.
pub data Scopes : Type 0 where
  nil_scopes scopes_error : Scopes
  scopes : MethodScopes → Scopes

abbrev pub Cache : Type 0
Cache = List (Text × Option MethodScopes)

abbrev cached : Option MethodScopes → Scopes
cached none = nil_scopes
cached (some m) = scopes m

-- The name in the registry: without the first slash, and with dots for the others.
unfoldable pub dotted : Text → Text
dotted [] = []
dotted (c ∷ s) = (if nat_beq c b'/' then b'.' else c) ∷ dotted s

unfoldable pub method_name : Text → Text
unfolding dotted
method_name [] = []
method_name (c ∷ s) = dotted s

unfoldable pub get_scopes : (Text → Declared) → Text → Cache → Cache × Scopes
unfolding new_method_scopes method_name
get_scopes registry [] cache = (cache, scopes_error)
get_scopes registry (c ∷ method) cache = elim (lookup (c ∷ method) cache) [
  | some entry ↦ (cache, cached entry)
  | none ↦ elim (registry (method_name (c ∷ method))) [
    | unknown ↦ (insert (c ∷ method) none cache, nil_scopes)
    | not_text ↦ (cache, scopes_error)
    | required_scopes text ↦
        let m = new_method_scopes text [] in (insert (c ∷ method) (some m) cache, scopes m)
  ]
]

pub record Actor : Type 0 where
  pub actor_id : Text
  pub app_name : Option Text
  pub username : Option Text

-- A verified token: its subject and its claims that are texts.
pub record Token : Type 0 where
  pub subject : Text
  pub claim : Text → Option Text

-- strings.SplitN(s, "_", 2), with the part that is being read.
unfoldable pub split_underscore : Text → Text → Text × Option Text
split_underscore first [] = (first, none)
split_underscore first (c ∷ s) =
    let rest = split_underscore (first ++ c ∷ []) s in
    if nat_beq c b'_' then (first, some s) else rest

abbrev not_empty : Text → Option Text
not_empty [] = none
not_empty (c ∷ s) = some (c ∷ s)

unfoldable pub parse_actor : Token → Actor
unfolding split_underscore
parse_actor token = elim (token.claim (codes "username")) [
  | none ↦ record { actor_id = token.subject; app_name = none; username = none }
  | some name ↦ elim (split_underscore [] name).1 [
    | some user ↦ record {
      actor_id = token.subject;
      app_name = some (split_underscore [] name).0;
      username = some user;
    }
    | none ↦ record { actor_id = token.subject; app_name = none; username = not_empty name }
  ]
]

pub data AuthError : Type 0 where
  invalid_scopes missing_metadata missing_token invalid_token : AuthError
  not_verified no_scope_claim insufficient_scopes : AuthError

-- `panics` is a call through the nil pointer of a method without descriptor.
pub data Answer : Type 0 where
  panics : Answer
  allowed : Option Actor → Answer
  denied : Option Actor → AuthError → Answer

-- The configuration's RemoveScopePrefix and ScopeKey, and jwt.Parse with the options in use.
pub record JwtConfig : Type 0 where
  pub remove_scope_prefix : Text
  pub scope_key : Text
  pub parse : Text → Option Token

abbrev pub Metadata : Type 0
Metadata = List (Text × List Text)

-- The token of the first value of the header.
unfoldable pub token_of : Option Metadata → Text ⊎ AuthError
unfolding trim_prefix
token_of none = inr missing_metadata
token_of (some meta) = elim (lookup (codes "authorization") meta) [
  | none ↦ inr missing_token
  | some [] ↦ inr missing_token
  | some (value ∷ values) ↦
      let token = trim_prefix value (codes "Bearer ") in
      if nat_beq (length token) 0 then inr invalid_token else inl token
]

unfoldable pub authorize_token : JwtConfig → MethodScopes → Token → Answer
unfolding parse_actor check new_method_scopes
authorize_token config required token = elim (token.claim config.scope_key) [
  | none ↦ denied (some (parse_actor token)) no_scope_claim
  | some scope ↦
      if check required (new_method_scopes scope config.remove_scope_prefix)
      then allowed (some (parse_actor token))
      else denied (some (parse_actor token)) insufficient_scopes
]

unfoldable pub authorize_scopes : JwtConfig → Option Metadata → Scopes → Answer
unfolding is_empty token_of authorize_token
authorize_scopes config meta nil_scopes = panics
authorize_scopes config meta scopes_error = denied none invalid_scopes
authorize_scopes config meta (scopes required) =
    if is_empty required then allowed none else elim (token_of meta) [
      | inr e ↦ denied none e
      | inl text ↦ elim (config.parse text) [
        | none ↦ denied none not_verified
        | some token ↦ authorize_token config required token
      ]
    ]

unfoldable pub authorize :
    JwtConfig → (Text → Declared) → Option Metadata → Text → Cache → Cache × Answer
unfolding get_scopes authorize_scopes
authorize config registry meta method cache =
    let found = get_scopes registry method cache in (found.0, authorize_scopes config meta found.1)
