-- ===== src/Tests/Sessions.antt =====
-- A session that collects and runs too early, prepares, fails to prepare, runs, prepares again, runs and
-- collects.
use ioflux.Prelude.{
  ℕ, List, inr, ◌∷◌, if◌then◌else◌, ◌≡◌, ◌==◌, refl, [], inl, some, none, nat_eq, true, ◌++◌,
}
use ioflux.Cluster.Session.{
  call_collect, call_prepare, call_run, WorkerCode, session_calls, Call, new_session,
  shutdown_engine,
}
use ioflux.Cluster.Session.Phases.{AllAllowed, idle_phase, session_calls-InPhase, Ready}
use ioflux.Cluster.Session.Held.{last_of, preparations, shutdowners}

abbrev code : WorkerCode ℕ ℕ ℕ ℕ ℕ
code = record {
  build_engine = λ plan root. inr plan;
  load = λ plan n. if plan == 0 then inl "no header" else inr (plan, plan);
  run_worker = λ x. (some x, none);
  stamp = λ host n o. o;
  is_shutdowner = λ n. true;
}

abbrev calls : List (Call ℕ)
calls =
    call_collect
    ∷ call_run
    ∷ call_prepare 1
    ∷ call_prepare 0
    ∷ call_run
    ∷ call_prepare 2
    ∷ call_run
    ∷ call_collect
    ∷ []

-- The engine of the preparation that failed is not among these.
first_released : (session_calls code calls (new_session "host" "")).2 ≡ 1 ∷ []
unfolding session_calls
first_released = refl

session_calls-InPhase_example :
    AllAllowed code "host" idle_phase (session_calls code calls (new_session "host" "")).1
    × Ready code ""
        (last_of none (preparations code "" calls))
        (session_calls code calls (new_session "host" "")).0
    × ((session_calls code calls (new_session "host" "")).2
          ++ shutdown_engine code (session_calls code calls (new_session "host" "")).0.eng
        ≡ shutdowners code "" (preparations code "" calls))
session_calls-InPhase_example = session_calls-InPhase code "host" "" calls
