-- ===== src/Cluster/Session/Held.antt =====
-- pkg/cluster/worker.go: which replay and which engine a session holds, and which engines it has released.
use ioflux.Prelude.{
  Option, List, some, String, ◌≡◌, [], ◌∷◌, ◌++◌, ◌⊎◌, none, inl, if◌then◌else◌, refl, ap, inr, ◌∙◌,
  Bool-cases, sym, append-nil, subst, append_assoc,
}
use ioflux.Cluster.Session.{
  call_collect, call_prepare, call_run, ran, run_before_prepare, WorkerCode, Outcome, Session,
  session_calls, session_call, session_run, Call, Reply, collect_out, session_prepare, run_exec,
  after_build, after_load, shutdown_engine, session_collect,
}

-- The engine and the replay of a preparation.
abbrev pub engine_in : {N X : Type 0} → Option (N × X) → Option N
engine_in none = none
engine_in (some (n, x)) = some n

abbrev pub replay_in : {N X : Type 0} → Option (N × X) → Option X
replay_in none = none
replay_in (some (n, x)) = some x

abbrev pub newer : {A : Type 0} → Option A → Option A → Option A
newer none old = old
newer (some x) old = some x

abbrev pub cons_some : {A : Type 0} → Option A → List A → List A
cons_some none xs = xs
cons_some (some x) xs = x ∷ xs

abbrev pub last_of : {A : Type 0} → Option A → List A → Option A
last_of o [] = o
last_of o (x ∷ xs) = last_of (some x) xs

module _ {P X N R O : Type 0} (code : WorkerCode P X N R O) (root : String) where
  -- What a preparation comes to, by itself: an engine and a replay, if it succeeds.
  abbrev loaded_on : N → String ⊎ (X × R) → Option (N × X)
  loaded_on n (inl why) = none
  loaded_on n (inr (x, r)) = some (n, x)

  abbrev built_for : P → String ⊎ N → Option (N × X)
  built_for p (inl why) = none
  built_for p (inr n) = loaded_on n (code.load p n)

  abbrev pub preparation : Call P → Option (N × X)
  preparation (call_prepare p) = built_for p (code.build_engine p root)
  preparation _ = none

  abbrev pub preparations : List (Call P) → List (N × X)
  preparations [] = []
  preparations (c ∷ calls) = cons_some (preparation c) (preparations calls)

  -- The engines among these that can be shut down.
  abbrev pub shutdowners : List (N × X) → List N
  shutdowners [] = []
  shutdowners ((n, x) ∷ ps) =
      let rest = shutdowners ps in if code.is_shutdowner n then n ∷ rest else rest

  abbrev pub run_reply : Option (N × X) → Reply R O
  run_reply none = run_before_prepare
  run_reply (some (n, x)) = ran (code.run_worker x).0 (code.run_worker x).1

  abbrev Holds : Option (N × X) → Session X N O → Type 0
  Holds p s = (s.target_root ≡ root) × (s.exec ≡ replay_in p) × (s.eng ≡ engine_in p)

  -- The engines that a preparation releases: the one before it, if it succeeds.
  abbrev released : Option (N × X) → Option (N × X) → List N
  released none old = []
  released (some p) old = shutdown_engine code (engine_in old)

  abbrev Moves : Option (N × X) → Option (N × X) → Outcome code → Type 0
  Moves p old r = Holds (newer p old) r.0 × (r.2 ≡ released p old)

  after_load-Moves :
      (old : Option (N × X)) (n : N) (r : String ⊎ (X × R)) (s : Session X N O)
      → Holds old s
      → Moves (loaded_on n r) old (after_load code n r s)
  after_load-Moves old n (inl why) s h = (h, refl)
  after_load-Moves old n (inr (x, r)) s (a, b, c) = ((a, refl, refl), ap (shutdown_engine code) c)

  after_build-Moves :
      (old : Option (N × X)) (p : P) (r : String ⊎ N) (s : Session X N O)
      → Holds old s
      → Moves (built_for p r) old (after_build code p r s)
  after_build-Moves old p (inl why) s h = (h, refl)
  after_build-Moves old p (inr n) s h = after_load-Moves old n (code.load p n) s h

  run_exec-Moves :
      (old : Option (N × X)) (o : Option X) (s : Session X N O)
      → Holds old s
      → Moves none old (run_exec code o s)
  run_exec-Moves old none s h = (h, refl)
  run_exec-Moves old (some x) s h = (h, refl)

  collect_out-Moves :
      (old : Option (N × X)) (o : Option O) (s : Session X N O)
      → Holds old s
      → Moves none old (collect_out code o s)
  collect_out-Moves old none s h = (h, refl)
  collect_out-Moves old (some o) s h = (h, refl)

  session_call-Moves :
      (old : Option (N × X)) (c : Call P) (s : Session X N O)
      → Holds old s
      → Moves (preparation c) old (session_call code c s)
  unfolding session_call session_prepare session_run session_collect
  session_call-Moves old (call_prepare p) s (a, b, c) =
      subst
        (λ (dir : String).
          Moves (preparation (call_prepare p)) old (after_build code p (code.build_engine p dir) s))
        (sym a) (after_build-Moves old p (code.build_engine p root) s (a, b, c))
  session_call-Moves old call_run s h = run_exec-Moves old s.exec s h
  session_call-Moves old call_collect s h = collect_out-Moves old s.out s h

  newer_last :
      (p old : Option (N × X)) (ps : List (N × X))
      → last_of (newer p old) ps ≡ last_of old (cons_some p ps)
  newer_last none old ps = refl
  newer_last (some p) old ps = refl

  released_first :
      (p old : Option (N × X)) (ps : List (N × X))
      → released p old ++ (shutdown_engine code (engine_in (newer p old)) ++ shutdowners ps)
        ≡ shutdown_engine code (engine_in old) ++ shutdowners (cons_some p ps)
  released_first none old ps = refl
  released_first (some (n, x)) old ps =
      ap (λ (ns : List N). shutdown_engine code (engine_in old) ++ ns)
        (elim (Bool-cases (code.is_shutdowner n)) [ inl e ↦ rw e refl | inr e ↦ rw e refl ])

  -- From any preparation on, the session holds the last, and has released the others.
  pub session_calls-Holds :
      (old : Option (N × X)) (calls : List (Call P)) (s : Session X N O)
      → Holds old s
      → Holds (last_of old (preparations calls)) (session_calls code calls s).0
        × ((session_calls code calls s).2 ++ shutdown_engine code (session_calls code calls s).0.eng
            ≡ shutdown_engine code (engine_in old) ++ shutdowners (preparations calls))
  unfolding session_calls
  session_calls-Holds old [] s (a, b, c) = (
    (a, b, c),
    ap (shutdown_engine code) c ∙ sym (append-nil (shutdown_engine code (engine_in old))),
  )
  session_calls-Holds old (c ∷ calls) s h =
      let p = preparation c in
      let r = session_call code c s in
      let (h', same) = session_call-Moves old c s h in
      let (last, all) = session_calls-Holds (newer p old) calls r.0 h' in
      let rest = session_calls code calls r.0 in
      let ps = preparations calls in
      (
        subst (λ (o : Option (N × X)). Holds o rest.0) (newer_last p old ps) last,
        append_assoc r.2 rest.2 (shutdown_engine code rest.0.eng)
            ∙ ap (λ (ns : List N). r.2 ++ ns) all
            ∙ ap
                (λ (ns : List N).
                  ns ++ (shutdown_engine code (engine_in (newer p old)) ++ shutdowners ps))
                same
            ∙ released_first p old ps,
      )

  pub run-Holds :
      (p : Option (N × X)) (s : Session X N O)
      → s.exec ≡ replay_in p
      → (session_run code s).1 ≡ run_reply p
  unfolding session_run
  run-Holds none s e = rw e refl
  run-Holds (some (n, x)) s e = rw e refl
