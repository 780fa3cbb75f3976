-- ===== src/Prepare/Writer/Ends.antt =====
-- pkg/prepare/prepare.go: the writer comes to an end.
use ioflux.Prelude.{
  ℕ, pos, Option, ℤ, some, Bool, ◌≡◌, true, false, none, refl, Bool-cases, ltb_ℤ, ◌||◌, inl, inr,
  not, ◌==◌, ◌&&◌, int_eq, arith, int_beq_iff, String, Option-cases, ◌<◌, pos_part, ◌≤◌, ◌+◌, suc,
  ap, zero, List, ◌∷◌, lookup, [], string_eq,
}
use ioflux.Prepare.{
  bad_write_count, out_of_fuel, short_count, validate_write_count, PrepareError, failure_of, Stats,
  stopped, Metadata, compute_required_sizes, no_stats,
}
use ioflux.Engine.Types.{no_error, EngineError, is_nil_error, Engine}
use ioflux.Prepare.Writer.{
  sync_and_close, close_with, write_chunks, unless_failed, close_target, sync_target, chunk_size,
  write_opened, write_target, materialize_targets, materialize_synthetic, write_posix, write_sized,
  put_target, known_size, create_trunc,
}
use ioflux.Payload.Fill.{Config, fill, normalize}
use ioflux.Trace.Types.{mode_write, TargetInfo}

abbrev pub is_out_of_fuel : Option PrepareError → Bool
is_out_of_fuel (some out_of_fuel) = true
is_out_of_fuel _ = false

-- A panic of the engine ends the writer too.
abbrev pub Ends : {S : Type 0} → Option (S × Option PrepareError) → Type 0
Ends none = Unit
Ends (some (e, r)) = is_out_of_fuel r ≡ false

failure_of-fuel : (err : EngineError) → is_out_of_fuel (failure_of err) ≡ false
failure_of-fuel no_error = refl
failure_of-fuel _ = refl

validate_write_count-fuel :
    (written requested : ℤ) (err : EngineError)
    → is_out_of_fuel (validate_write_count written requested err) ≡ false
unfolding validate_write_count
validate_write_count-fuel written requested err =
    elim (Bool-cases (ltb_ℤ written (pos 0) || ltb_ℤ requested written)) [
      | inl a ↦ rw a refl
      | inr a ↦ elim (Bool-cases (not (written == requested) && is_nil_error err)) [
        | inl b ↦ rw (a, b) refl
        | inr b ↦ rw (a, b) (failure_of-fuel err)
      ]
    ]

failure_of-none : (err : EngineError) → failure_of err ≡ none → is_nil_error err ≡ true
failure_of-none no_error e = refl
failure_of-none _ e = cc

-- A count that passes is the count that was asked for.
pub validate_write_count-none :
    (written requested : ℤ) (err : EngineError)
    → validate_write_count written requested err ≡ none
    → written ≡ requested
unfolding validate_write_count
validate_write_count-none written requested err e =
    elim (Bool-cases (ltb_ℤ written (pos 0) || ltb_ℤ requested written)) [
      | inl a ↦ let q : some (bad_write_count written requested) ≡ none = rw a at e in cc
      | inr a ↦ elim (Bool-cases (not (written == requested) && is_nil_error err)) [
        | inl b ↦ let q : some (short_count written requested) ≡ none = rw (a, b) at e in cc
        | inr b ↦
            let good = failure_of-none err (rw (a, b) at e) in
            ground (arith, int_beq_iff written requested)
      ]
    ]

module _ {S : Type 0} (engine : Engine S) (ctx_err : S → EngineError) (hash_string64 : String → ℕ)
    (chunk : ℕ) where
  close_with-Ends :
      (h : ℤ) (why : PrepareError) (e : S)
      → is_out_of_fuel (some why) ≡ false
      → Ends (close_with engine ctx_err hash_string64 chunk h why e)
  close_with-Ends h why e n = elim (Option-cases (engine.close h e)) [
    | inl p ↦ rw p tt
    | inr (r, p) ↦ rw p n
  ]

  close_target-Ends : (h : ℤ) (e : S) → Ends (close_target engine ctx_err hash_string64 chunk h e)
  unfolding close_target
  close_target-Ends h e = elim (Option-cases (engine.close h e)) [
    | inl p ↦ rw p tt
    | inr (r, p) ↦ rw p (failure_of-fuel r.1)
  ]

  unless_failed-Ends :
      (r : Option PrepareError) (h : ℤ) (e : S) (rest : Option (S × Option PrepareError))
      → is_out_of_fuel r ≡ false
      → (r ≡ none → Ends rest)
      → Ends (unless_failed engine ctx_err hash_string64 chunk r h e rest)
  unless_failed-Ends none h e rest n f = f refl
  unless_failed-Ends (some why) h e rest n f = close_with-Ends h why e n

  sync_and_close-Ends :
      (h : ℤ) (e : S) → Ends (sync_and_close engine ctx_err hash_string64 chunk h e)
  unfolding sync_and_close sync_target
  sync_and_close-Ends h e = elim (Bool-cases engine.caps.durable) [
    | inl d ↦ elim (Option-cases (engine.fsync h e)) [
      | inl p ↦ rw (d, p) tt
      | inr (r, p) ↦
          rw (d, p)
            (unless_failed-Ends (failure_of r.1) h r.0 _ (failure_of-fuel r.1)
              (λ q. close_target-Ends h r.0))
    ]
    | inr d ↦ rw d (close_target-Ends h e)
  ]

  -- A turn of fuel for each byte that is left is enough, since a turn writes at least one.
  write_chunks-Ends :
      (fuel : ℕ) (h : ℤ) (name : String) (size : ℤ) (cfg : Config) (off : ℕ) (e : S)
      → 0 < chunk
      → pos_part size ≤ off + fuel
      → Ends (write_chunks engine ctx_err hash_string64 chunk fuel h name size cfg off e)
  unfolding write_chunks
  write_chunks-Ends zero h name size cfg off e p b =
      let q : ltb_ℤ (pos off) size ≡ false = ground arith in rw q (sync_and_close-Ends h e)
  write_chunks-Ends (suc fuel) h name size cfg off e p b =
      elim (Bool-cases (ltb_ℤ (pos off) size)) [
        | inl q ↦
            let n = chunk_size chunk size off in
            let bytes = fill hash_string64 n cfg (pos 0) name off in
            rw q (
              unless_failed-Ends (failure_of (ctx_err e)) h e _ (failure_of-fuel (ctx_err e)) λ c.
                elim (Option-cases (engine.write h (pos off) bytes e)) [
                  | inl o ↦ rw o tt
                  | inr (r, o) ↦ rw o (
                      unless_failed-Ends (validate_write_count r.1 (pos n) r.2) h r.0 _
                        (validate_write_count-fuel r.1 (pos n) r.2)
                        λ v.
                          let same = ap pos_part (validate_write_count-none r.1 (pos n) r.2 v) in
                          write_chunks-Ends fuel h name size cfg (off + pos_part r.1) r.0 p
                            (ground arith))
                ])
        | inr q ↦ rw q (sync_and_close-Ends h e)
      ]

  write_opened-Ends :
      (err : EngineError) (h : ℤ) (name : String) (size : ℤ) (cfg : Config) (e : S)
      → 0 < chunk
      → Ends (write_opened engine ctx_err hash_string64 chunk err h name size cfg e)
  write_opened-Ends no_error h name size cfg e p =
      write_chunks-Ends (pos_part size) h name size cfg 0 e p (omega arith)
  write_opened-Ends _ h name size cfg e p = refl

  write_target-Ends :
      (name : String) (size : ℤ) (cfg : Config) (e : S)
      → 0 < chunk
      → Ends (write_target engine ctx_err hash_string64 chunk name size cfg e)
  unfolding write_target write_posix put_target
  write_target-Ends name size cfg e p = elim (Bool-cases engine.caps.object_api) [
    | inl a ↦
        let bytes = fill hash_string64 (pos_part size) (normalize cfg) (pos 0) name 0 in
        elim (Option-cases (engine.put name bytes size e)) [
          | inl q ↦ rw (a, q) tt
          | inr (r, q) ↦ rw (a, q) (failure_of-fuel r.1)
        ]
    | inr a ↦ elim (Option-cases (engine.open_target name mode_write create_trunc e)) [
      | inl q ↦ rw (a, q) tt
      | inr (r, q) ↦ rw (a, q) (write_opened-Ends r.2 r.1 name size (normalize cfg) r.0 p)
    ]
  ]

  write_sized-Ends :
      (size : Option ℤ) (tgt : TargetInfo) (cfg : Config) (e : S)
      → 0 < chunk
      → Ends (write_sized engine ctx_err hash_string64 chunk size tgt cfg e)
  write_sized-Ends none tgt cfg e p = refl
  write_sized-Ends (some size) tgt cfg e p = write_target-Ends tgt.name size cfg e p

  abbrev pub AllEnds : Option (S × Stats × Option PrepareError) → Type 0
  AllEnds none = Unit
  AllEnds (some (e, stats, r)) = is_out_of_fuel r ≡ false

  stopped-AllEnds :
      (r : Option PrepareError) (e : S) (stats : Stats)
      (rest : Option (S × Stats × Option PrepareError))
      → is_out_of_fuel r ≡ false
      → AllEnds rest
      → AllEnds (stopped engine ctx_err r (e, stats, r) rest)
  stopped-AllEnds none e stats rest n f = f
  stopped-AllEnds (some why) e stats rest n f = n

  materialize_targets-AllEnds :
      (sizes : List (String × ℤ)) (meta : Metadata) (targets : List TargetInfo) (stats : Stats)
      (e : S)
      → 0 < chunk
      → AllEnds (materialize_targets engine ctx_err hash_string64 chunk sizes meta targets stats e)
  unfolding materialize_targets
  materialize_targets-AllEnds sizes meta [] stats e p = refl
  materialize_targets-AllEnds sizes meta (tgt ∷ targets) stats e p =
      let cfg = meta.fill_config in
      let size = known_size engine ctx_err hash_string64 chunk (lookup tgt.name sizes) in
      let ends = write_sized-Ends size tgt cfg e p in
      stopped-AllEnds (failure_of (ctx_err e)) e stats _ (failure_of-fuel (ctx_err e))
        (elim (Option-cases (write_sized engine ctx_err hash_string64 chunk size tgt cfg e)) [
          | inl q ↦ rw q tt
          | inr (r, q) ↦
              let fine : is_out_of_fuel r.1 ≡ false = rw q at ends in
              rw q (
                stopped-AllEnds r.1 r.0 stats _ fine
                  (materialize_targets-AllEnds sizes meta targets _ r.0 p))
        ])

  -- On any engine, and with any buffer that holds a byte, materializing ends: the turns of its loops
  -- suffice, so that it returns an error of the engine, of the context or of the targets' sizes, or
  -- succeeds (or the engine panics).
  pub materialize_synthetic-AllEnds :
      (targets : List TargetInfo) (meta : Metadata) (e : S)
      → 0 < chunk
      → AllEnds (materialize_synthetic engine ctx_err hash_string64 chunk targets meta e)
  unfolding materialize_synthetic
  materialize_synthetic-AllEnds targets meta e p =
      materialize_targets-AllEnds (compute_required_sizes targets _) _ targets no_stats e p
