-- ===== src/Tokens/Tests.antt =====
-- A token that is its own payload, refused after the time in `exp`.
use ai_customer_support_plat.Prelude.{
  ℕ, ◌≡◌, ◌≤◌, refl, Option, none, some, leb, if◌then◌else◌, codes, is_empty, text_eq, Text, arith,
  returns, raises,
}
use ai_customer_support_plat.Tokens.Service.{
  Claim, Claims, text, time, set_key, get, add_extra, access_payload, visitor_extra, preview_extra,
  create_access_token, decode_access_token, create_visitor_token, create_preview_token,
  decode_visitor_token, decode_preview_token, invalid_token, not_a_visitor_token,
  not_a_preview_token,
}
use ai_customer_support_plat.Tokens.Roundtrip.{decode_visitor_token-create, decode_token-other}

service : Unit {0}
unfolding is_empty text_eq set_key get add_extra access_payload visitor_extra preview_extra
    create_access_token decode_access_token create_visitor_token create_preview_token
    decode_visitor_token decode_preview_token
service = tt

abbrev seal : Claims → Claims
seal payload = payload

abbrev unseal : ℕ → Option Claim → Claims → Option Claims
unseal now (some (time e)) payload = if leb now e then some payload else none
unseal now (some (text s)) payload = none
unseal now none payload = none

abbrev open_seal : ℕ → Claims → Option Claims
open_seal now payload = unseal now (get "exp" payload) payload

open_seal-seal :
    (payload : Claims) (now e : ℕ)
    → get "exp" payload ≡ some (time e)
    → now ≤ e
    → open_seal now (seal payload) ≡ some payload
open_seal-seal payload now e he h = rw he (ground arith)

abbrev ann : Text
ann = codes "ann"

token_tests :
    (decode_visitor_token seal open_seal 61
        (create_visitor_token seal open_seal ann ann ann ann (some ann) 0 1).0
      ≡ raises invalid_token)
    × (decode_preview_token seal open_seal 60
          (create_preview_token seal open_seal ann ann ann ann 0 1).0
        ≡ returns (access_payload ann (preview_extra ann ann ann 60) 0 1))
unfolding service
token_tests = (refl, refl)

decode_visitor_token-create_example :
    (payload : Claims) × (decode_visitor_token seal open_seal 60
        (create_visitor_token seal open_seal ann ann ann ann (some ann) 0 1).0
      ≡ returns payload)
    × (get "sub" payload ≡ some (text ann))
    × (get "org_id" payload ≡ some (text ann))
    × (get "widget_id" payload ≡ some (text ann))
    × (get "widget_public_id" payload ≡ some (text ann))
    × (get "conversation_id" payload ≡ some (text ann))
    × (get "exp" payload ≡ some (time 60))
unfolding service
decode_visitor_token-create_example =
    decode_visitor_token-create seal open_seal open_seal-seal ann ann ann ann (some ann) 0 1 60 refl
      refl refl (omega arith)

decode_token-other_example :
    (decode_visitor_token seal open_seal 60
        (create_preview_token seal open_seal ann ann ann ann 0 1).0
      ≡ raises not_a_visitor_token)
    × (decode_preview_token seal open_seal 60
          (create_visitor_token seal open_seal ann ann ann ann none 0 1).0
        ≡ raises not_a_preview_token)
decode_token-other_example =
    decode_token-other seal open_seal open_seal-seal ann ann ann ann ann none 0 1 60 (omega arith)
