-- ===== src/Examples/Delivering.antt =====
-- A delivery under a lifetime of two days.
use eudi_verifier_core.Prelude.{◌≡◌, none, ◌⊎◌, pos, bytes}
use eudi_verifier_core.Errors.{ok}
use eudi_verifier_core.Handoff.{Wire, new_queue, with_prefix, deliver}
use eudi_verifier_core.Handoff.Buffering.{IsCapped, Untouched, Buffered, deliver-Buffered}
use eudi_verifier_core.Pipeline.Checks.AssembleForward.{assembled}
use eudi_verifier_core.Examples.Wallet.{session_row, started}

abbrev wire : Wire Unit
wire = record {
  exec = λ cmds v. (none, v);
  encrypt = λ plain. ok (bytes "jwe");
  marshal_result = λ res. ok (bytes "result");
  marshal_envelope = λ env. ok (bytes "envelope");
  payload_key = λ id. id;
  queue_key = "queue";
}

deliver-Buffered_example :
    let q = with_prefix "dev:" (new_queue (pos 172800000000000)) in
    let answer = deliver wire q session_row (assembled {W = Unit} (started tt)) 10 11 tt in
    (Untouched wire q tt answer
      ⊎ Buffered wire q session_row (assembled {W = Unit} (started tt)) 10 11 tt answer)
    × (IsCapped (pos 172800000000000) → q.ttl ≡ pos 172800000000000)
deliver-Buffered_example =
    deliver-Buffered wire (pos 172800000000000) "dev:" session_row
      (assembled {W = Unit} (started tt)) 10 11 tt
