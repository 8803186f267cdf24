-- ===== src/Examples/Once.antt =====
-- Two responses for one session of a service over a server that keeps its keys.
use eudi_verifier_core.Prelude.{
  none, some, List, [], ◌∷◌, ◌≡◌, ◌≢◌, refl, pos, bytes, str_eq, eq_iff, if◌then◌else◌,
}
use eudi_verifier_core.Errors.{ok}
use eudi_verifier_core.ValkeyStore.{
  key_session, key_consumed, with_key_prefix, save, load, consume_once, mark_request_object_served,
}
use eudi_verifier_core.ValkeyStore.Laws.{IsValkey}
use eudi_verifier_core.ValkeyStore.Replay.{done, marks}
use eudi_verifier_core.ValkeyStore.Replay.Traffic.{Traffic, quiet, operations, elsewhere}
use eudi_verifier_core.RespondTokens
use eudi_verifier_core.RespondTokens.{resolve}
use eudi_verifier_core.Wallet.{wallet_response}
use eudi_verifier_core.Wallet.Responses.{IsAccepted}
use eudi_verifier_core.App.{App, ResultSink, other_sink, set_result_sink, session_creator}
use eudi_verifier_core.App.Init
use eudi_verifier_core.App.Creating.{Seam, asks_creator, sets_result_sink, steps}
use eudi_verifier_core.App.Serving.{router_of}
use eudi_verifier_core.App.Serving.Once.{service-once}
use eudi_verifier_core.Examples.Wallet.{session}
use eudi_verifier_core.Examples.Stores.{Keys, put, drop, got, backend, backend-IsValkey}
use eudi_verifier_core.Examples.Parts.{Memory, running_of, handlers}
use eudi_verifier_core.Examples.Service.{answered}

abbrev keys : Memory Keys
keys = record {
  write = λ k value v. put k value v;
  read = λ k v. got (v k);
  claim_key = λ k value v. backend.set_nx k value (pos 0) v;
  remove = λ ks v. drop ks v;
}

abbrev service : App (Unit {0}) Keys
service = running_of keys

-- Everything that a response reads is there, and no marker is.
abbrev fresh : Keys
fresh key = if str_eq key "d:vc:session:s1:consumed" then none else some (bytes "s1")

claimed : ((router_of handlers service).consume_once "s1" fresh).0 ≡ ok session
unfolding router_of Init.assembled consume_once load save key_session key_consumed with_key_prefix
claimed = refl

routed_first : (router_of handlers service).resolve "t" fresh ≡ ok "s1"
unfolding router_of Init.assembled resolve RespondTokens.with_prefix
routed_first = refl

accepted : IsAccepted (wallet_response (router_of handlers service) "t" (bytes "body") "" fresh).0
unfolding wallet_response router_of Init.assembled resolve consume_once load save key_session
    key_consumed with_key_prefix RespondTokens.with_prefix
accepted = rw (answered keys ((router_of handlers service).consume_once "s1" fresh).1) tt

abbrev sink : ResultSink Keys
sink = other_sink (λ meta res v. (none, v))

-- Behind the first response: another attempt, a token in the cache, and another sink.
abbrev after : Keys
after = ((router_of handlers service).consume_once "s1" fresh).1

abbrev later : Keys
later = put "d:cache" (bytes "1") after

service-IsValkey : IsValkey service.valkey
unfolding Init.assembled
service-IsValkey = backend-IsValkey

cache_apart : "d:cache" ≢ key_consumed service.sessions "s1"
unfolding key_consumed Init.assembled with_key_prefix
cache_apart same = absurd (cc ((eq_iff "d:cache" (key_consumed service.sessions "s1")).1 same))

cached :
    service-IsValkey.holds (key_consumed service.sessions "s1") later
    ≡ service-IsValkey.holds (key_consumed service.sessions "s1") after
unfolding Init.assembled
cached =
    service-IsValkey.same_set (key_consumed service.sessions "s1") "d:cache" (bytes "1") (pos 0)
      after cache_apart

abbrev object_served : Keys
object_served = (mark_request_object_served service.valkey service.sessions "s1" later).1

between : Traffic service.valkey service.sessions service-IsValkey "s1" after object_served
unfolding router_of
between = elsewhere _ _ _ cached (operations _ _ _ (marks "s1" _ _ (done _)) (quiet _))

-- The service behind two swaps.
abbrev swaps : List (Seam Keys)
swaps = asks_creator ∷ sets_result_sink sink ∷ []

swapped : App (Unit {0}) Keys
swapped = steps (λ w. 20) (λ p. ok []) swaps service

routed : (router_of handlers swapped).resolve "t" object_served ≡ ok "s1"
unfolding swapped router_of Init.assembled resolve RespondTokens.with_prefix steps set_result_sink
    session_creator consume_once with_key_prefix mark_request_object_served
routed = refl

service-once_example :
    ¬ IsAccepted
      (wallet_response (router_of handlers swapped) "t" (bytes "again") "" object_served).0
unfolding swapped
service-once_example =
    service-once handlers (λ w. 20) (λ p. ok []) service swaps service-IsValkey "s1" "t" "t"
      (bytes "body") (bytes "again") "" "" fresh object_served routed_first accepted between routed
