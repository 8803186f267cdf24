-- ===== src/RespondTokens.antt =====
-- The routing index of the response route: internal/sessions/respondtokens.go.
pub mod Routing
use eudi_verifier_core.Prelude.{
  String, Option, none, some, ◌++◌, Bytes, bytes, Duration, text_append,
}
use eudi_verifier_core.Errors.{GoError, Result, ok, err, plain}
use eudi_verifier_core.ValkeyStore.{Backend, Got, found, missing, broken, prefixed}

-- `ErrRespondTokenNotFound`
abbrev pub not_found : GoError
not_found = plain (bytes "sessions: respond token not found or expired")

-- `ValkeyRespondTokens`; `text` is the string that the client's `Result` makes of the bytes read.
pub record Tokens : Type 0 where
  pub prefix : String
  pub text : Bytes → String

-- `WithKeyPrefix`
unfoldable pub with_prefix : String → Tokens → Tokens
with_prefix prefix t = record t { prefix = prefix }

unfoldable pub token_key : Tokens → String → String
token_key t token = text_append t.prefix (text_append "vc:respondtoken:" token)

module _ {V : Type 0} (b : Backend V) (t : Tokens) where
  -- `Put`
  unfoldable pub put : String → (session_id : String) → Duration → V → Option GoError × V
  unfolding token_key
  put token session_id ttl v = b.set (token_key t token) (bytes session_id) ttl v

  answer : Got → Result String
  answer missing = err not_found
  answer (broken e) = err (prefixed (bytes "sessions: respond token: ") e)
  answer (found id) = ok (t.text id)

  -- `Resolve`
  unfoldable pub resolve : String → V → Result String
  unfolding answer token_key
  resolve token v = answer (b.get (token_key t token) v)
