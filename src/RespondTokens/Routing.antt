-- ===== src/RespondTokens/Routing.antt =====
-- What `Resolve` answers after `Put`.
use eudi_verifier_core.Prelude.{String, none, ◌≡◌, ◌⊎◌, inl, inr, refl, bytes, Duration}
use eudi_verifier_core.Errors.{GoError, ok, err}
use eudi_verifier_core.ValkeyStore.{Backend, prefixed}
use eudi_verifier_core.ValkeyStore.Laws.{IsValkey}
use eudi_verifier_core.RespondTokens.{Tokens, token_key, put, resolve, answer}

-- On a backend that behaves like Valkey, with a client that reads back the text that was written, a
-- token that `Put` recorded without an error resolves to its session; the only other answer is an
-- error of the client's `Get`.
resolve-put :
    {V : Type 0} (b : Backend V) (t : Tokens)
    → IsValkey b
    → (token session_id : String) (ttl : Duration) (v : V) → t.text (bytes session_id) ≡ session_id
    → (put b t token session_id ttl v).0 ≡ none
    → (resolve b t token (put b t token session_id ttl v).1 ≡ ok session_id)
      ⊎ ((e : GoError) × (resolve b t token (put b t token session_id ttl v).1
            ≡ err (prefixed (bytes "sessions: respond token: ") e)))
unfolding put resolve answer
resolve-put b t valkey token session_id ttl v reads h =
    elim (valkey.get_set (token_key t token) (bytes session_id) ttl v h) [
      | inl got ↦ inl (rw (got, answer, reads) refl)
      | inr (e, got) ↦ inr (e, rw (got, answer) refl)
    ]
