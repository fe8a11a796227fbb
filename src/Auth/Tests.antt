-- ===== src/Auth/Tests.antt =====
-- A method with two scopes, a token with one of them, and the key sets of two rotations.
use yaghan.Base.{
  ◌≡◌, ◌↔◌, ◌⊎◌, refl, Bool, true, false, List, [], ◌∷◌, Option, none, some, if◌then◌else◌,
}
use yaghan.Base.Text.{Text, codes, text_eq, text_beq, has_prefix}
use yaghan.Base.Dict.{lookup}
use yaghan.Auth.{
  fields, Declared, unknown, required_scopes, Token, Actor, allowed, JwtConfig, Metadata, authorize,
  method_name,
}
use yaghan.Auth.Grants.{Granted, IsCoherent, authorize_iff}
use yaghan.Auth.Keys.{
  Key, KeyConfig, Authorizer, with_clock, with_audience, refresh, set_jwt_options, audiences,
  refresh-replaced, set_jwt_options-audiences,
}

abbrev method : Text
method = codes "/y.C/Get"

abbrev registry : Text → Declared
registry name =
    if text_beq name (codes "y.C.Get") then required_scopes (codes "read  write") else unknown

abbrev token : Token
token = record {
  subject = codes "u1";
  claim = λ c. if text_beq c (codes "scope") then some (codes "y/read") else none;
}

abbrev config : JwtConfig
config = record {
  remove_scope_prefix = codes "y/";
  scope_key = codes "scope";
  parse = λ t. if text_beq t (codes "abc") then some token else none;
}

abbrev metadata : Option Metadata
metadata = some ((codes "authorization", codes "Bearer abc" ∷ []) ∷ [])

two_scopes : fields (codes "read  write") ≡ codes "read" ∷ codes "write" ∷ []
unfolding fields
two_scopes = refl

goes_through :
    (authorize config registry metadata method []).1
    ≡ allowed (some (record { actor_id = codes "u1"; app_name = none; username = none }))
unfolding authorize text_beq lookup has_prefix
goes_through = refl

declared : registry (method_name method) ≡ required_scopes (codes "read  write")
unfolding method_name text_beq
declared = refl

nothing_cached : IsCoherent registry []
unfolding lookup
nothing_cached name entry held = cc

authorize_iff_example :
    (((actor : Option Actor) × ((authorize config registry metadata method []).1 ≡ allowed actor))
      ↔ ((fields (codes "read  write") ≡ [])
          ⊎ Granted config metadata (fields (codes "read  write"))))
    × IsCoherent registry (authorize config registry metadata method []).0
authorize_iff_example =
    authorize_iff config registry metadata method (codes "read  write") [] (λ e. cc e) declared
      nothing_cached

abbrev old_key : Key
old_key = record { key_id = codes "k1"; algorithm = some (codes "RS256"); material = codes "m1" }

abbrev new_key : Key
new_key = record { key_id = codes "k2"; algorithm = some (codes "RS256"); material = codes "m2" }

abbrev bare_key : Key
bare_key = record { key_id = codes "k3"; algorithm = none; material = codes "m3" }

abbrev same_id : List Key → Key → Bool
same_id [] k = false
same_id (j ∷ keys) k =
    let rest = same_id keys k in if text_beq j.key_id k.key_id then true else rest

abbrev key_config : KeyConfig
key_config = record { scope_key = codes "scope"; allowed_audience = codes "aud"; index = same_id }

abbrev authorizer : Authorizer
authorizer = record {
  key_set = some (old_key ∷ []);
  options = with_clock ∷ with_audience (codes "aud") ∷ [];
}

strange : same_id (old_key ∷ []) new_key ≡ false
unfolding text_beq
strange = refl

refresh-replaced_example :
    refresh key_config ((new_key ∷ []) ∷ (new_key ∷ []) ∷ []) authorizer ≡ authorizer
refresh-replaced_example =
    refresh-replaced key_config (old_key ∷ []) ((new_key ∷ []) ∷ (new_key ∷ []) ∷ []) authorizer
      refl ((strange, tt), ((strange, tt), tt))

refused : (set_jwt_options key_config (old_key ∷ bare_key ∷ []) authorizer).1 ≡ false
unfolding set_jwt_options text_beq
refused = refl

set_jwt_options-audiences_example :
    audiences (set_jwt_options key_config (old_key ∷ bare_key ∷ []) authorizer).0.options ≡ []
set_jwt_options-audiences_example =
    set_jwt_options-audiences key_config (old_key ∷ bare_key ∷ []) authorizer refused
