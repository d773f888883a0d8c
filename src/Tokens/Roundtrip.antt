-- ===== src/Tokens/Roundtrip.antt =====
-- What a token of a chat widget says when it is read back, and to whom.
use ai_customer_support_plat.Prelude.{
  ℕ, ◌+◌, ◌*◌, ◌≡◌, ◌≤◌, refl, false, [], ◌∷◌, Option, none, some, if◌then◌else◌, Text, text_eq,
  is_empty, returns, raises,
}
use ai_customer_support_plat.Tokens.Service.{
  Claim, text, time, Claims, set_key, get, add_extra, access_payload, visitor_extra, preview_extra,
  create_access_token, decode_access_token, create_visitor_token, create_preview_token,
  decode_visitor_token, decode_preview_token, not_a_visitor_token, not_a_preview_token,
  visitor_token_type, preview_token_type,
}

-- The claim of a conversation: none for an absent or empty identifier.
abbrev pub conversation_claim : Option Text → Option Claim
conversation_claim none = none
conversation_claim (some c) = if is_empty c then none else some (text c)

-- What `jwt` documents: a token is read back as what was encoded, until the time in `exp`, and not
-- after it.
module _ {Token : Type 0} (jwt_encode : Claims → Token) (jwt_decode : ℕ → Token → Option Claims)
    (decodes : (payload : Claims) (now e : ℕ)
      → get "exp" payload ≡ some (time e)
      → now ≤ e
      → jwt_decode now (jwt_encode payload) ≡ some payload) where
  accepted :
      (payload : Claims) (later e : ℕ) (customer org widget : Text)
      → get "exp" payload ≡ some (time e)
      → later ≤ e
      → get "typ" payload ≡ some (text visitor_token_type)
      → get "sub" payload ≡ some (text customer)
      → get "org_id" payload ≡ some (text org)
      → get "widget_id" payload ≡ some (text widget)
      → is_empty customer ≡ false
      → is_empty org ≡ false
      → is_empty widget ≡ false
      → decode_visitor_token jwt_encode jwt_decode later (jwt_encode payload) ≡ returns payload
  unfolding decode_visitor_token decode_access_token text_eq
  accepted payload later e customer org widget he h ht hs ho hw ec eo ew =
      rw (decodes payload later e he h, decode_access_token, decode_visitor_token)
        (rw (ht, hs, ho, hw) (rw (ec, eo, ew) refl))

  -- Where `jwt` reads a token back as what was encoded until the time in `exp`: a visitor token, with
  -- a customer, an organisation and a widget that are not empty, is accepted until the minutes that
  -- it was created for have passed, and gives back the customer, the organisation, the widget, its
  -- public identifier, the conversation where one was given, and the time it expires.
  pub decode_visitor_token-create :
      (customer org widget public_id : Text) (conversation : Option Text) (now minutes later : ℕ)
      → is_empty customer ≡ false
      → is_empty org ≡ false
      → is_empty widget ≡ false
      → later ≤ now + 60 * minutes
      → (payload : Claims) × (decode_visitor_token jwt_encode jwt_decode later
            (create_visitor_token jwt_encode jwt_decode customer org widget public_id conversation
              now minutes).0
          ≡ returns payload)
        × (get "sub" payload ≡ some (text customer))
        × (get "org_id" payload ≡ some (text org))
        × (get "widget_id" payload ≡ some (text widget))
        × (get "widget_public_id" payload ≡ some (text public_id))
        × (get "conversation_id" payload ≡ conversation_claim conversation)
        × (get "exp" payload ≡ some (time (now + 60 * minutes)))
  unfolding create_visitor_token create_access_token get set_key add_extra access_payload
      visitor_extra is_empty
  decode_visitor_token-create customer org widget public_id none now minutes later hc ho hw h =
      let e = now + 60 * minutes in
      let payload =
        access_payload customer (visitor_extra org widget public_id none e) now minutes in
      let read = accepted payload later e customer org widget refl h refl refl refl refl hc ho hw in
      (payload, read, refl, refl, refl, refl, refl, refl)
  decode_visitor_token-create customer org widget public_id (some []) now minutes later hc ho hw h =
      let e = now + 60 * minutes in
      let payload =
        access_payload customer (visitor_extra org widget public_id (some []) e) now minutes in
      let read = accepted payload later e customer org widget refl h refl refl refl refl hc ho hw in
      (payload, read, refl, refl, refl, refl, refl, refl)
  decode_visitor_token-create customer org widget public_id (some (x ∷ c)) now minutes later hc ho
        hw h =
      let e = now + 60 * minutes in
      let payload =
        access_payload customer (visitor_extra org widget public_id (some (x ∷ c)) e) now minutes in
      let read = accepted payload later e customer org widget refl h refl refl refl refl hc ho hw in
      (payload, read, refl, refl, refl, refl, refl, refl)

  refused_visitor :
      (payload : Claims) (later e : ℕ)
      → get "exp" payload ≡ some (time e)
      → later ≤ e
      → get "typ" payload ≡ some (text preview_token_type)
      → decode_visitor_token jwt_encode jwt_decode later (jwt_encode payload)
        ≡ raises not_a_visitor_token
  unfolding decode_visitor_token decode_access_token text_eq
  refused_visitor payload later e he h ht =
      rw (decodes payload later e he h, decode_access_token, decode_visitor_token) (rw ht refl)

  refused_preview :
      (payload : Claims) (later e : ℕ)
      → get "exp" payload ≡ some (time e)
      → later ≤ e
      → get "typ" payload ≡ some (text visitor_token_type)
      → decode_preview_token jwt_encode jwt_decode later (jwt_encode payload)
        ≡ raises not_a_preview_token
  unfolding decode_preview_token decode_access_token text_eq
  refused_preview payload later e he h ht =
      rw (decodes payload later e he h, decode_access_token, decode_preview_token) (rw ht refl)

  visitor-typ :
      (customer org widget public_id : Text) (conversation : Option Text) (e now minutes : ℕ)
      → (get "typ" (
            access_payload customer (visitor_extra org widget public_id conversation e) now minutes)
          ≡ some (text visitor_token_type))
        × (get "exp" (
              access_payload customer
                (visitor_extra org widget public_id conversation e)
                now
                minutes)
            ≡ some (time e))
  unfolding get set_key add_extra access_payload visitor_extra is_empty
  visitor-typ customer org widget public_id none e now minutes = (refl, refl)
  visitor-typ customer org widget public_id (some []) e now minutes = (refl, refl)
  visitor-typ customer org widget public_id (some (x ∷ c)) e now minutes = (refl, refl)

  -- Where `jwt` reads a token back as what was encoded until the time in `exp`: until they expire, a
  -- preview token is refused as no visitor token and a visitor token as no preview token, whatever
  -- the identifiers are.
  pub decode_token-other :
      (customer user org widget public_id : Text) (conversation : Option Text)
      (now minutes later : ℕ)
      → later ≤ now + 60 * minutes
      → (decode_visitor_token jwt_encode jwt_decode later
            (create_preview_token jwt_encode jwt_decode org widget public_id user now minutes).0
          ≡ raises not_a_visitor_token)
        × (decode_preview_token jwt_encode jwt_decode later
              (create_visitor_token jwt_encode jwt_decode customer org widget public_id conversation
                now minutes).0
            ≡ raises not_a_preview_token)
  unfolding create_visitor_token create_preview_token create_access_token get set_key add_extra
      access_payload preview_extra
  decode_token-other customer user org widget public_id conversation now minutes later h =
      let e = now + 60 * minutes in
      let preview = access_payload user (preview_extra org widget public_id e) now minutes in
      let extra = visitor_extra org widget public_id conversation e in
      let (typ, exp) = visitor-typ customer org widget public_id conversation e now minutes in
      (
        refused_visitor preview later e refl h refl,
        refused_preview (access_payload customer extra now minutes) later e exp h typ,
      )
