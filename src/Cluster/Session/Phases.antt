-- ===== src/Cluster/Session/Phases.antt =====
-- pkg/cluster/worker.go: the protocol of a session, as its replies show it.
use ioflux.Prelude.{
  false, Bool, List, ◌∷◌, ◌≡◌, Option, is_some, String, true, ◌⊎◌, [], sym, inl, ◌∙◌, ap, inr, refl,
  some, none, ◌++◌,
}
use ioflux.Cluster.Session.{
  call_collect, call_prepare, call_run, collect_before_run, collected, ran, ready,
  run_before_prepare, Session, Reply, WorkerCode, session_call, session_calls, shutdown_engine,
  session_prepare, run_exec, collect_out, Call, after_load, after_build, session_run, new_session,
  session_collect, Outcome,
}
use ioflux.Cluster.Session.Held.{
  replay_in, last_of, engine_in, preparations, run_reply, shutdowners, session_calls-Holds,
  run-Holds,
}

-- Whether a replay is prepared, and what the last run since then has left.
pub record Phase (O : Type 0) : Type 0 where
  pub has_exec : Bool
  pub left : Option O

abbrev pub idle_phase : {O : Type 0} → Phase O
idle_phase = record { has_exec = false; left = none }

-- What a reply says of the session after it.
abbrev pub phase_after : {R O : Type 0} → Reply R O → Phase O → Phase O
phase_after (ready r) p = record { has_exec = true; left = none }
phase_after (ran out err) p = record p { left = out }
phase_after (collected o) p = record p { left = some o }
phase_after _ p = p

module _ {P X N R O : Type 0} (code : WorkerCode P X N R O) (host : String) where
  -- A reply that the phase allows: a run or a collection is refused exactly where there is nothing to
  -- run or to collect, and what is collected is what was left, stamped.
  abbrev pub Allowed : Phase O → Reply R O → Type 0
  Allowed p run_before_prepare = p.has_exec ≡ false
  Allowed p (ran out err) = p.has_exec ≡ true
  Allowed p collect_before_run = p.left ≡ none
  Allowed p (collected o) =
      (out : O) × (eng : Option N) × (p.left ≡ some out) × (o ≡ code.stamp host eng out)
  Allowed p _ = Unit

  abbrev pub AllAllowed : Phase O → List (Reply R O) → Type 0
  AllAllowed p [] = Unit
  AllAllowed p (reply ∷ replies) = Allowed p reply × AllAllowed (phase_after reply p) replies

  abbrev pub InPhase : Phase O → Session X N O → Type 0
  InPhase p s = (s.hostname ≡ host) × (is_some s.exec ≡ p.has_exec) × (s.out ≡ p.left)

  abbrev Follows : Phase O → Outcome code → Type 0
  Follows p r = Allowed p r.1 × InPhase (phase_after r.1 p) r.0

  after_load-Follows :
      (p : Phase O) (n : N) (r : String ⊎ (X × R)) (s : Session X N O)
      → InPhase p s
      → Follows p (after_load code n r s)
  after_load-Follows p n (inl why) s h = (tt, h)
  after_load-Follows p n (inr (x, r)) s (a, b, c) = (tt, (a, refl, refl))

  run_exec-Follows :
      (p : Phase O) (x : Option X) (s : Session X N O)
      → s.exec ≡ x
      → InPhase p s
      → Follows p (run_exec code x s)
  run_exec-Follows p none s e (a, b, c) = (sym b ∙ ap is_some e, (a, b, c))
  run_exec-Follows p (some x) s e (a, b, c) = (sym b ∙ ap is_some e, (a, b, refl))

  collect_out-Follows :
      (p : Phase O) (o : Option O) (s : Session X N O)
      → s.out ≡ o
      → InPhase p s
      → Follows p (collect_out code o s)
  collect_out-Follows p none s e (a, b, c) = (sym c ∙ e, (a, b, c))
  collect_out-Follows p (some o) s e (a, b, c) =
      ((o, s.eng, sym c ∙ e, ap (λ (name : String). code.stamp name s.eng o) a), (a, b, refl))

  after_build-Follows :
      (p : Phase O) (plan : P) (r : String ⊎ N) (s : Session X N O)
      → InPhase p s
      → Follows p (after_build code plan r s)
  after_build-Follows p plan (inl why) s h = (tt, h)
  after_build-Follows p plan (inr n) s h = after_load-Follows p n (code.load plan n) s h

  session_call-Follows :
      (p : Phase O) (c : Call P) (s : Session X N O)
      → InPhase p s
      → Follows p (session_call code c s)
  unfolding session_call session_prepare session_run session_collect
  session_call-Follows p (call_prepare plan) s h =
      after_build-Follows p plan (code.build_engine plan s.target_root) s h
  session_call-Follows p call_run s h = run_exec-Follows p s.exec s refl h
  session_call-Follows p call_collect s h = collect_out-Follows p s.out s refl h

  calls-AllAllowed :
      (p : Phase O) (calls : List (Call P)) (s : Session X N O)
      → InPhase p s
      → AllAllowed p (session_calls code calls s).1
  unfolding session_calls
  calls-AllAllowed p [] s h = tt
  calls-AllAllowed p (c ∷ calls) s h =
      let r = session_call code c s in
      let (a, i) = session_call-Follows p c s h in
      (a, calls-AllAllowed (phase_after r.1 p) calls r.0 i)

module _ {P X N R O : Type 0} (code : WorkerCode P X N R O) where
  -- The session holds the replay and the engine of this preparation, and a run replays it.
  abbrev pub Ready : String → Option (N × X) → Session X N O → Type 0
  Ready root p s =
      (s.exec ≡ replay_in p)
      × (s.eng ≡ engine_in p)
      × ((session_run code s).1 ≡ run_reply code root p)

  -- Whatever calls a new session gets, in whatever order, it refuses a run exactly where no preparation
  -- has succeeded, and a collection exactly where no run has come since the last preparation that
  -- succeeded or the last such run has left no output; a collection gives what that run has left,
  -- stamped, once for each collection since. After the calls it holds the engine and the replay of the
  -- last preparation that succeeded, and a run replays that; and the engines that it has shut down,
  -- followed by the one it holds, are those of all preparations that succeeded, in order, as far as
  -- they can be shut down.
  pub session_calls-InPhase :
      (host root : String) (calls : List (Call P))
      → AllAllowed code host idle_phase (session_calls code calls (new_session host root)).1
        × Ready root
            (last_of none (preparations code root calls))
            (session_calls code calls (new_session host root)).0
        × ((session_calls code calls (new_session host root)).2
              ++ shutdown_engine code (session_calls code calls (new_session host root)).0.eng
            ≡ shutdowners code root (preparations code root calls))
  session_calls-InPhase host root calls =
      let s = new_session host root in
      let ((_, exec, eng), shut) = session_calls-Holds code root none calls s (refl, refl, refl) in
      (
        calls-AllAllowed code host idle_phase calls s (refl, refl, refl),
        (exec, eng, run-Holds code root _ (session_calls code calls s).0 exec),
        shut,
      )
