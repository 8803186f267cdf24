-- ===== src/App/Serving/Delivered.antt =====
-- What an accepted response left on the server.
use eudi_verifier_core.Prelude.{
  ◌⊎◌, ◌≢◌, refl, String, Option, none, ◌≡◌, inl, inr, sym, ap, ◌∙◌, Bytes, Time, Duration,
}
use eudi_verifier_core.Errors.{GoError, ok}
use eudi_verifier_core.Pipeline.Context.{SessionRow, RunResult, PipelineContext}
use eudi_verifier_core.Pipeline.Checks.AssembleForward.{assembled}
use eudi_verifier_core.Pipeline.Checks.AssembleForward.Delivery.{forwarded-delivers}
use eudi_verifier_core.Pipeline.Production.Verified.{StandsOn}
use eudi_verifier_core.Pipeline.Production.{production}
use eudi_verifier_core.Pipeline.Engine.{run}
use eudi_verifier_core.Pipeline.Finalize.Disposal.{Settled, finalize-Settled}
use eudi_verifier_core.ValkeyStore.{save, delete_session}
use eudi_verifier_core.Wallet.{wallet_response}
use eudi_verifier_core.Wallet.Responses.{IsAccepted, Backed, wallet_response-Backed}
use eudi_verifier_core.Handoff.{Wire, Queue, new_queue, with_prefix, deliver}
use eudi_verifier_core.Handoff.Buffering.{Buffered, deliver-Buffered}
use eudi_verifier_core.Config.{Configuration}
use eudi_verifier_core.App.{App, handoff_queue}
use eudi_verifier_core.App.Init.{Outside, init, key_prefix}
use eudi_verifier_core.App.Init.Wired.{init-IsWired}
use eudi_verifier_core.App.Serving.{Handlers, deliver_to, services_of, processor_of, router_of}

module _ {B W : Type 0} (h : Handlers W) (a : App B W) where
  -- The delivery of the context's result to the queue, at the time that the clock gives.
  abbrev pub sent : Wire W → Queue → PipelineContext W → Option GoError × W
  sent wire queue ready =
      deliver wire queue ready.meta (assembled ready) (h.clock 0 ready.world)
        (h.clock 1 ready.world) ready.world

  -- What a run leaves, from what its delivery left: the session is saved in the service's store
  -- under a response code, and deleted from it without one.
  abbrev pub Closes : PipelineContext W → (left end : W) → Type 0
  Closes ready left end =
      ((ready.response_code ≢ "")
        × (end ≡ (save a.valkey a.sessions ready.session (h.clock 0 left) left).1))
      ⊎ ((ready.response_code ≡ "")
          × (end ≡ (delete_session a.valkey a.sessions ready.session_id left).1))

  -- The delivery of a response: the context behind its checks, the result that is made of it, the
  -- one transaction by which this reached the queue of the service, and the state in which the run
  -- ends.
  pub record Delivery (token : String) (body : Bytes) (origin : String) (w : W) (queue : Queue)
      : Type 0 where
    pub backed : Backed (router_of h a) token body origin w
    pub wire : Wire W
    pub sink : a.result_sink ≡ handoff_queue wire queue
    pub buffered :
        let ready = backed.answered.ready in
        Buffered wire queue ready.meta
          (assembled ready)
          (h.clock 0 ready.world)
          (h.clock 1 ready.world)
          ready.world
          (sent wire queue ready)
    pub confirmed : (sent wire queue backed.answered.ready).0 ≡ none
    pub closed :
        Closes backed.answered.ready
          (sent wire queue backed.answered.ready).1
          (run (production h.libraries (services_of h a)) backed.answered.start).1.world

  sink_delivers :
      (wire : Wire W) (queue : Queue) (meta : SessionRow) (res : RunResult) (w : W)
      → a.result_sink ≡ handoff_queue wire queue
      → (services_of h a).deliver meta res w
        ≡ deliver wire queue meta res (h.clock 0 w) (h.clock 1 w) w
  unfolding services_of deliver_to
  sink_delivers wire queue meta res w sink = ap (λ s. deliver_to h a s meta res w) sink

  module _ (wire : Wire W) (queue : Queue) (sink : a.result_sink ≡ handoff_queue wire queue)
      (start ready : PipelineContext W)
      (s : StandsOn h.libraries (services_of h a) start ready) where
    stands_confirmed : (sent wire queue ready).0 ≡ none
    stands_confirmed =
        ap (λ (r : Option GoError × W). r.0)
          (sym (sink_delivers wire queue ready.meta (assembled ready) ready.world sink))
        ∙ forwarded-delivers (services_of h a) ready s.delivered

    stands-Settled :
        Settled
          (services_of h a)
          ready
          (sent wire queue ready).1
          (run (production h.libraries (services_of h a)) start).1.world
    unfolding assembled
    stands-Settled =
        rw
          (
            s.world_after,
            sym (sink_delivers wire queue ready.meta (assembled ready) ready.world sink),
          )
          (finalize-Settled (services_of h a) _ (assembled ready) s.delivered refl)

    stands-Closes :
        Closes ready
          (sent wire queue ready).1
          (run (production h.libraries (services_of h a)) start).1.world
    unfolding services_of
    stands-Closes = stands-Settled

  router_stands :
      (token : String) (body : Bytes) (origin : String) (w : W)
      → (b : Backed (router_of h a) token body origin w)
      → StandsOn h.libraries (services_of h a) b.answered.start b.answered.ready
  unfolding router_of processor_of
  router_stands token body origin w b = b.answered.stands

-- A delivery without an error changed the server.
delivered_once :
    {V : Type 0} (wire : Wire V) (ttl : Duration) (prefix : String) (meta : SessionRow)
    (res : RunResult) (t u : Time) (v : V)
    → (deliver wire (with_prefix prefix (new_queue ttl)) meta res t u v).0 ≡ none
    → Buffered wire
        (with_prefix prefix (new_queue ttl))
        meta
        res
        t
        u
        v
        (deliver wire (with_prefix prefix (new_queue ttl)) meta res t u v)
delivered_once wire ttl prefix meta res t u v h =
    elim (deliver-Buffered wire ttl prefix meta res t u v).0 [
      | inl (same, (e, failed)) ↦ absurd (cc (h, failed))
      | inr b ↦ b
    ]

-- On a service that has started: if the wallet is told that its response was accepted, the response
-- consumed its session, and its run ended verified with every check passed. The result that is made
-- of the context behind the checks was delivered without an error to the queue of the configured
-- lifetime under the deployment's prefix, by the one transaction whose payload depends on the result
-- in its ciphertext alone; and the run ends in the state which this transaction left, but for the
-- session, which is saved if there is a response code, and deleted otherwise.
pub wallet_response-Delivery :
    {B W : Type 0} (o : Outside B W) (c : Configuration B) (h : Handlers W) (a : App B W)
    (token : String) (body : Bytes) (origin : String) (w : W)
    → init o c ≡ ok a
    → IsAccepted (wallet_response (router_of h a) token body origin w).0
    → Delivery h a token body origin w (with_prefix (key_prefix o c) (new_queue c.handoff_ttl))
wallet_response-Delivery {W = W} o c h a token body origin w started accepted =
    let (steps, wired) = init-IsWired o c a started in
    let backed = wallet_response-Backed (router_of h a) token body origin w accepted in
    let start = backed.answered.start in
    let ready = backed.answered.ready in
    let stands = router_stands h a token body origin w backed in
    let sink = wired.sink ∙ ap (handoff_queue wired.wire) wired.queued in
    let confirmed = stands_confirmed h a wired.wire _ sink start ready stands in
    record {
      backed = backed;
      wire = wired.wire;
      sink = sink;
      buffered =
          delivered_once wired.wire c.handoff_ttl (key_prefix o c) ready.meta (assembled ready) _ _
            ready.world confirmed;
      confirmed = confirmed;
      closed = stands-Closes h a wired.wire _ sink start ready stands;
    }
