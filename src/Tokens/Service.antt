-- ===== src/Tokens/Service.antt =====
-- backend/app/modules/auth/security.py: `create_access_token` and `decode_access_token`, and
-- backend/app/modules/widgets/visitor_token.py. `jwt.encode` and `jwt.decode` under the secret key of
-- the settings are parameters; times are whole seconds, as a token keeps them. Identifiers are texts
-- here, since the code tests whether they are empty.
use ai_customer_support_plat.Prelude.{
  ℕ, ◌+◌, ◌*◌, Bool, true, false, not, ◌||◌, List, [], ◌∷◌, Option, none, some, String, str_eq,
  if◌then◌else◌, Text, text_eq, codes, is_empty, Attempt, returns, raises, ◌>>=◌, ◌>>◌, guard,
}

pub data Claim : Type 0 where
  text : Text → Claim
  time : ℕ → Claim

-- A dict with text keys, as its items.
abbrev pub Claims : Type 0
Claims = List (String × Claim)

pub data TokenError : Type 0 where
  invalid_token not_a_visitor_token incomplete_visitor_token not_a_preview_token : TokenError

-- `payload[key] = value`
unfoldable pub set_key : String → Claim → Claims → Claims
set_key k v [] = (k, v) ∷ []
set_key k v ((j, w) ∷ rest) = if str_eq j k then (k, v) ∷ rest else (j, w) ∷ set_key k v rest

-- `payload.get(key)`
unfoldable pub get : String → Claims → Option Claim
get k [] = none
get k ((j, w) ∷ rest) = if str_eq j k then some w else get k rest

-- The loop over `extra.items()`, which leaves `exp` out.
unfoldable pub add_extra : Claims → Claims → Claims
unfolding set_key
add_extra [] payload = payload
add_extra ((k, v) ∷ rest) payload =
    add_extra rest (if str_eq k "exp" then payload else set_key k v payload)

abbrev pub set_exp : Option Claim → Claims → Claims
set_exp none payload = payload
set_exp (some e) payload = set_key "exp" e payload

-- What `create_access_token` encodes.
unfoldable pub access_payload : Text → Claims → ℕ → ℕ → Claims
unfolding get add_extra
access_payload subject extra now minutes =
    let payload = ("sub", text subject) ∷ ("exp", time (now + 60 * minutes)) ∷ [] in
    set_exp (get "exp" extra) (add_extra extra payload)

abbrev pub visitor_token_type : Text
visitor_token_type = codes "visitor"

abbrev pub preview_token_type : Text
preview_token_type = codes "widget_preview"

abbrev pub default_visitor_ttl_minutes : ℕ
default_visitor_ttl_minutes = 1440

abbrev pub default_preview_ttl_minutes : ℕ
default_preview_ttl_minutes = 30

abbrev pub with_conversation : Option Text → Claims → Claims
with_conversation none extra = extra
with_conversation (some c) extra =
    if is_empty c then extra else set_key "conversation_id" (text c) extra

unfoldable pub visitor_extra : Text → Text → Text → Option Text → ℕ → Claims
unfolding set_key
visitor_extra org widget public_id conversation expires_at = with_conversation conversation (
    ("typ", text visitor_token_type)
    ∷ ("org_id", text org)
    ∷ ("widget_id", text widget)
    ∷ ("widget_public_id", text public_id)
    ∷ ("exp", time expires_at)
    ∷ [])

unfoldable pub preview_extra : Text → Text → Text → ℕ → Claims
preview_extra org widget public_id expires_at =
    ("typ", text preview_token_type)
    ∷ ("org_id", text org)
    ∷ ("widget_id", text widget)
    ∷ ("widget_public_id", text public_id)
    ∷ ("exp", time expires_at)
    ∷ []

-- `payload.get(key) == value`
abbrev pub is_text : Text → Option Claim → Bool
is_text t none = false
is_text t (some (text s)) = text_eq s t
is_text t (some (time n)) = false

-- `not payload.get(key)`
abbrev pub is_missing : Option Claim → Bool
is_missing none = true
is_missing (some (text s)) = is_empty s
is_missing (some (time n)) = false

module _ {Token : Type 0} (jwt_encode : Claims → Token)
    (jwt_decode : ℕ → Token → Option Claims) where
  unfoldable pub create_access_token : Text → Claims → ℕ → ℕ → Token
  unfolding access_payload
  create_access_token subject extra now minutes =
      jwt_encode (access_payload subject extra now minutes)

  unfoldable pub decode_access_token : ℕ → Token → Attempt TokenError Claims
  decode_access_token now token = elim (jwt_decode now token) [
    | none ↦ raises invalid_token
    | some payload ↦ returns payload
  ]

  unfoldable pub create_visitor_token : Text → Text → Text → Text → Option Text → ℕ → ℕ → Token × ℕ
  unfolding create_access_token visitor_extra
  create_visitor_token customer org widget public_id conversation now minutes =
      let expires_at = now + 60 * minutes in
      (
        create_access_token customer (visitor_extra org widget public_id conversation expires_at)
            now minutes,
        expires_at,
      )

  unfoldable pub create_preview_token : Text → Text → Text → Text → ℕ → ℕ → Token × ℕ
  unfolding create_access_token preview_extra
  create_preview_token org widget public_id user now minutes =
      let expires_at = now + 60 * minutes in
      (
        create_access_token user (preview_extra org widget public_id expires_at) now minutes,
        expires_at,
      )

  unfoldable pub decode_visitor_token : ℕ → Token → Attempt TokenError Claims
  unfolding decode_access_token get
  decode_visitor_token now token = do
    payload ← decode_access_token now token
    guard (not (is_text visitor_token_type (get "typ" payload))) not_a_visitor_token
    guard
        (is_missing (get "sub" payload)
          || (is_missing (get "org_id" payload) || is_missing (get "widget_id" payload)))
        incomplete_visitor_token
    returns payload

  unfoldable pub decode_preview_token : ℕ → Token → Attempt TokenError Claims
  unfolding decode_access_token get
  decode_preview_token now token = do
    payload ← decode_access_token now token
    guard (not (is_text preview_token_type (get "typ" payload))) not_a_preview_token
    returns payload
