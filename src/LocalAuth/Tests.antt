-- ===== src/LocalAuth/Tests.antt =====
-- Runs of the limiter, and the theorems at them.
use grok_mcp_server.Base.{◌≡◌, refl, List, [], ◌∷◌, true, false, arith}
use grok_mcp_server.LocalAuth.{
  FailureLimiter, drop_expired, events_of, counted, record_failure, clear, retry_after,
}
use grok_mcp_server.LocalAuth.Memory.{
  Call, fails, asks, perform, run, IsBounded, run-IsBounded, record_failure-clear,
}

-- The program with every function open.
program : Unit {0}
unfolding drop_expired events_of counted record_failure clear retry_after perform run
program = tt

abbrev limiter : FailureLimiter
limiter = record { window = 60_000_000; failure_limit = 1; peer_limit = 2; failures = [] }

abbrev calls : List Call
calls = fails 1 10 ∷ fails 1 20 ∷ fails 2 30 ∷ asks 1 40 ∷ fails 3 50 ∷ []

-- The second failure is limited, and the third peer pushes out the one that was seen first.
second-limited : (record_failure 1 20 (run (fails 1 10 ∷ []) limiter)).0 ≡ true
unfolding program
second-limited = refl

third-evicts : (run calls limiter).failures ≡ (1, 10 ∷ 20 ∷ []) ∷ (3, 50 ∷ []) ∷ []
unfolding program
third-evicts = refl

retry-seconds : (retry_after 1 40 (run (fails 1 10 ∷ fails 1 20 ∷ []) limiter)).0 ≡ 60
unfolding program
retry-seconds = refl

run-IsBounded_example : IsBounded 1 2 (run calls limiter)
run-IsBounded_example =
    run-IsBounded 1 2 (omega arith) calls limiter (record {
      failure_limit_kept = refl;
      peer_limit_kept = refl;
      peers = omega arith;
      events = tt;
    })

record_failure-clear_example :
    (record_failure 1 30 (clear 1 (run (fails 1 10 ∷ fails 1 20 ∷ []) limiter))).0 ≡ false
unfolding program
record_failure-clear_example =
    record_failure-clear 1 30 (run (fails 1 10 ∷ fails 1 20 ∷ []) limiter) (omega arith)
