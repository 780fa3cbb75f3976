-- ===== src/Cluster/Session.antt =====
-- pkg/cluster/worker.go: a worker's session, driven by a sequence of calls. Building an engine, loading
-- the trace on it, replaying it and stamping the output are parameters: `X` is a prepared replay, `N`
-- an engine, `R` what PREPARE reports and `O` a run's output, which may be missing. The locks are left
-- out, since each call runs whole. Besides the session and its reply, a call gives the engines on which it
-- calls Shutdown.
use ioflux.Prelude.{
  ℕ, Option, String, List, ◌⊎◌, some, none, ◌∷◌, [], ◌-◌, inl, inr, suc, ◌++◌, if◌then◌else◌, Bool,
}
pub mod Held
pub mod Phases

pub record WorkerCode (P X N R O : Type 0) : Type 0 where
  pub build_engine : P → String → String ⊎ N
  pub load : P → N → String ⊎ (X × R)
  pub run_worker : X → Option O × Option String
  pub stamp : String → Option N → O → O
  pub is_shutdowner : N → Bool

pub record Session (X N O : Type 0) : Type 0 where
  pub hostname : String
  pub target_root : String
  pub exec : Option X
  pub eng : Option N
  pub out : Option O

pub data Call (P : Type 0) : Type 0 where
  call_prepare : P → Call P
  call_run : Call P
  call_collect : Call P

pub data Reply (R O : Type 0) : Type 0 where
  build_failed : String → Reply R O
  load_failed_with : String → Reply R O
  ready : R → Reply R O
  run_before_prepare : Reply R O
  ran : Option O → Option String → Reply R O
  collect_before_run : Reply R O
  collected : O → Reply R O

abbrev pub new_session : {X N O : Type 0} → String → String → Session X N O
new_session host root = record {
  hostname = host;
  target_root = root;
  exec = none;
  eng = none;
  out = none;
}

module _ {P X N R O : Type 0} (code : WorkerCode P X N R O) where
  abbrev pub Outcome : Type 0
  Outcome = Session X N O × Reply R O × List N

  abbrev pub shutdown_engine : Option N → List N
  shutdown_engine none = []
  shutdown_engine (some n) = if code.is_shutdowner n then n ∷ [] else []

  abbrev pub after_load : N → String ⊎ (X × R) → Session X N O → Outcome
  after_load n (inl why) s = (s, load_failed_with why, [])
  after_load n (inr (x, r)) s =
      (record s { exec = some x; eng = some n; out = none }, ready r, shutdown_engine s.eng)

  abbrev pub after_build : P → String ⊎ N → Session X N O → Outcome
  after_build p (inl why) s = (s, build_failed why, [])
  after_build p (inr n) s = after_load n (code.load p n) s

  unfoldable pub session_prepare : P → Session X N O → Outcome
  session_prepare p s = after_build p (code.build_engine p s.target_root) s

  abbrev pub run_exec : Option X → Session X N O → Outcome
  run_exec none s = (s, run_before_prepare, [])
  run_exec (some x) s =
      let (out, err) = code.run_worker x in (record s { out = out }, ran out err, [])

  unfoldable pub session_run : Session X N O → Outcome
  session_run s = run_exec s.exec s

  abbrev pub collect_out : Option O → Session X N O → Outcome
  collect_out none s = (s, collect_before_run, [])
  collect_out (some o) s =
      let stamped = code.stamp s.hostname s.eng o in
      (record s { out = some stamped }, collected stamped, [])

  unfoldable pub session_collect : Session X N O → Outcome
  session_collect s = collect_out s.out s

  unfoldable pub session_call : Call P → Session X N O → Outcome
  unfolding session_prepare session_run session_collect
  session_call (call_prepare p) s = session_prepare p s
  session_call call_run s = session_run s
  session_call call_collect s = session_collect s

  unfoldable pub session_calls :
      List (Call P) → Session X N O → Session X N O × List (Reply R O) × List N
  unfolding session_call
  session_calls [] s = (s, [], [])
  session_calls (c ∷ calls) s =
      let (s', reply, shut) = session_call c s in
      let (s'', replies, shuts) = session_calls calls s' in (s'', reply ∷ replies, shut ++ shuts)
