-- ===== src/Importer/Tracked/Written.antt =====
-- pkg/importer/build.go: the trace that a build writes, seen stream by stream.
use ioflux.Prelude.{
  ℕ, int_eq, List, Bool, ℤ, if◌then◌else◌, map, Option, keep, ◌∷◌, ◌≡◌, some, true, false, ap, refl,
  ltb_ℤ, suc, none, [], sort_stable, inl, ◌∙◌, ◌⊎◌, inr, ◌==◌, lookup, subst, sym, pos, arith,
  Ordered,
}
use ioflux.Importer.Builder.{
  clamp_ops, assign_ids, StreamOp, Builder, HeaderMeta, rebase, assemble, stream_ids, min_timestamp,
  stays_before, clamp_streams, or_empty, Assembled, new_builder,
}
use ioflux.Trace.Types.{Op}
use ioflux.Importer.Tracked.{Lives, AllOwned, Tracked, said, latest_onto, Owned}
use ioflux.Importer.FdTable.{FdTable, new_fd_table}
use ioflux.Validate.Lifecycle.{Lifecycle}
use ioflux.Importer.Builder.Streams.{clamped_to, left_out, in_stream, Becomes, sorted_stream}
use ioflux.Importer.Tracked.Merge.{
  onto, of_stream, forget, All-streams, Lives-forget, Lives-merge, Lives-remember,
}
use ioflux.Validate.Order.{TimeLe}
use ioflux.Importer.FdTable.Handles.{new_fd_table-IsSound, held, new_fd_table-held}
use ioflux.Importer.Builder.Order.{assemble-Ordered}

abbrev bare : StreamOp → Op
bare so = forget so.op

onto-map :
    (earlier ops : List Op)
    → map forget (onto earlier ops) ≡ onto (map forget earlier) (map forget ops)
onto-map earlier [] = refl
onto-map earlier (op ∷ ops) = onto-map (op ∷ earlier) ops

if-onto :
    (c : Bool) (op : Op) (earlier kept : List Op)
    → onto (if c then op ∷ earlier else earlier) kept ≡ onto earlier (if c then op ∷ kept else kept)
if-onto true op earlier kept = refl
if-onto false op earlier kept = refl

keep-onto :
    (s : ℤ) (earlier ops : List Op)
    → keep (of_stream s) (onto earlier ops)
      ≡ onto (keep (of_stream s) earlier) (keep (of_stream s) ops)
keep-onto s earlier [] = refl
keep-onto s earlier (op ∷ ops) =
    keep-onto s (op ∷ earlier) ops
    ∙ if-onto (of_stream s op) op (keep (of_stream s) earlier) (keep (of_stream s) ops)

if-map :
    (c : Bool) (so : StreamOp) (sos : List StreamOp)
    → (if c then bare so ∷ map bare sos else map bare sos) ≡ map bare (if c then so ∷ sos else sos)
if-map true so sos = refl
if-map false so sos = refl

keep-bare :
    (s : ℤ) (sos : List StreamOp)
    → keep (of_stream s) (map bare sos) ≡ map bare (keep (in_stream s) sos)
keep-bare s [] = refl
keep-bare s (so ∷ sos) =
    ap (λ xs. if so.op.s == s then bare so ∷ xs else xs) (keep-bare s sos)
    ∙ if-map (so.op.s == s) so (keep (in_stream s) sos)

assign_ids-bare : (i : ℕ) (sos : List StreamOp) → map forget (assign_ids i sos) ≡ map bare sos
unfolding assign_ids
assign_ids-bare i [] = refl
assign_ids-bare i (so ∷ sos) = ap (λ xs. bare so ∷ xs) (assign_ids-bare (suc i) sos)

clamp_ops-bare :
    (m prev : Option ℤ) (n : ℕ) (sos : List StreamOp)
    → map bare (clamp_ops m prev n sos).0 ≡ map bare sos
unfolding clamp_ops
clamp_ops-bare m none n [] = refl
clamp_ops-bare m (some p) n [] = refl
clamp_ops-bare m none n (so ∷ sos) =
    ap (λ xs. bare so ∷ xs) (clamp_ops-bare m (some (rebase m so.op.t)) n sos)
clamp_ops-bare m (some p) n (so ∷ sos) =
    let early = ltb_ℤ (rebase m so.op.t) p in
    ap (λ xs. bare so ∷ xs)
      (clamp_ops-bare m (some (if early then p else rebase m so.op.t)) (if early then suc n else n)
        sos)

latest-onto :
    (earlier : List Op) (sos : List StreamOp)
    → map forget (latest_onto earlier sos) ≡ onto (map forget earlier) (map bare sos)
latest-onto earlier [] = refl
latest-onto earlier (so ∷ sos) = latest-onto (so.op ∷ earlier) sos

Lifecycle-of_Lives :
    (earlier ops : List Op) → Lives (onto earlier ops) → Lifecycle earlier ops × Lives earlier
Lifecycle-of_Lives earlier [] l = (tt, l)
Lifecycle-of_Lives earlier (op ∷ ops) l =
    let (rest, (f, l')) = Lifecycle-of_Lives (op ∷ earlier) ops l in ((f, rest), l')

AllOwned-forget :
    (owner : ℕ → ℤ) (n : ℕ) (ops : List Op)
    → AllOwned owner n ops
    → AllOwned owner n (map forget ops)
AllOwned-forget owner n [] a = tt
AllOwned-forget owner n (op ∷ ops) (p, a) = (p, AllOwned-forget owner n ops a)

module _ (owner : ℕ → ℤ) (b : Builder) (t : FdTable) (meta : HeaderMeta)
    (v : Tracked owner b.per_stream t) where
  abbrev written : List StreamOp
  written =
      let ids = stream_ids b.per_stream in
      let earliest = min_timestamp none ids b.per_stream in
      sort_stable stays_before
        (clamp_streams earliest b.report.timestamp_clamped ids b.per_stream).0

  -- Of each stream the trace says what was added to it, or nothing.
  stream_said :
      (s : ℤ)
      → (keep (of_stream s) (onto [] (map bare written)) ≡ map forget (said s b.per_stream))
        ⊎ (keep (of_stream s) (onto [] (map bare written)) ≡ [])
  stream_said s =
      whole
        (said_of _ (sorted_stream earliest b.per_stream v.arranged s b.report.timestamp_clamped))
    where
      kept_part : List Op
      kept_part = onto [] (map bare (keep (in_stream s) written))

      restrict : keep (of_stream s) (onto [] (map bare written)) ≡ kept_part
      restrict = keep-onto s [] (map bare written) ∙ ap (onto []) (keep-bare s written)

      whole :
          (kept_part ≡ map forget (said s b.per_stream)) ⊎ (kept_part ≡ [])
          → (keep (of_stream s) (onto [] (map bare written)) ≡ map forget (said s b.per_stream))
            ⊎ (keep (of_stream s) (onto [] (map bare written)) ≡ [])
      whole (inl q) = inl (restrict ∙ q)
      whole (inr q) = inr (restrict ∙ q)

      earliest : Option ℤ
      earliest = min_timestamp none (stream_ids b.per_stream) b.per_stream

      said_of :
          (kept : List StreamOp)
          → Becomes earliest (or_empty (lookup s b.per_stream)) kept
          → (onto [] (map bare kept) ≡ map forget (said s b.per_stream))
            ⊎ (onto [] (map bare kept) ≡ [])
      said_of kept (clamped_to n q) = inl (
          ap (λ xs. onto [] (map bare xs)) q
          ∙ ap (onto []) (clamp_ops-bare earliest none n (or_empty (lookup s b.per_stream)))
          ∙ sym (latest-onto [] (or_empty (lookup s b.per_stream))))
      said_of kept (left_out q) = inr (ap (λ xs. onto [] (map bare xs)) q)

  stream-Lives : (s : ℤ) → Lives (keep (of_stream s) (onto [] (map bare written)))
  stream-Lives s = elim (stream_said s) [
    | inl q ↦ rw q (Lives-forget (said s b.per_stream) (v.lives s))
    | inr q ↦ rw q tt
  ]

  stream_owned :
      (s : ℤ) → AllOwned owner t.next_handle (keep (of_stream s) (onto [] (map bare written)))
  stream_owned s = elim (stream_said s) [
    | inl q ↦ rw q (AllOwned-forget owner t.next_handle (said s b.per_stream) (v.owned s))
    | inr q ↦ rw q tt
  ]

  -- In the trace that is written every op fits what the ops before it say of its handle.
  pub assemble-Lifecycle : Lifecycle [] (assemble b meta).ops
  unfolding assemble
  assemble-Lifecycle =
      let ops = onto [] (map bare written) in
      let owned = All-streams (λ (op : Op). Owned owner t.next_handle op.h op.s) ops stream_owned in
      let lives = Lives-merge owner t.next_handle ops owned stream-Lives in
      let same : map forget (onto [] (assign_ids 0 written)) ≡ ops =
        onto-map [] (assign_ids 0 written) ∙ ap (onto []) (assign_ids-bare 0 written) in
      (Lifecycle-of_Lives [] (assign_ids 0 written)
        (Lives-remember (onto [] (assign_ids 0 written)) (subst Lives (sym same) lives))).0

none_held : (o : Option ℕ) (h : ℕ) → o ≡ none → o ≡ some h → ⊥
none_held o h e f = ground arith

-- A new builder and a new table agree.
pub new-Tracked : Tracked (λ h. pos 0) new_builder.per_stream new_fd_table
unfolding lookup
new-Tracked = record {
  sound = new_fd_table-IsSound;
  arranged = record { keys = tt; numbered = λ s. tt };
  lives = λ s. tt;
  owned = λ s. tt;
  local = λ s. tt;
  opened = λ k h e. absurd (none_held (held new_fd_table k) h (new_fd_table-held k) e);
}

of_else {ℓ} : {A : Type ℓ} (c : Bool) (x y : A) → (if c then none else some x) ≡ some y → x ≡ y
of_else true x y e = cc
of_else false x y e = cc

-- The trace of an import that succeeds.
pub written_trace :
    (owner : ℕ → ℤ) (b : Builder) (t : FdTable) (meta : HeaderMeta) (fails : Bool) (a : Assembled)
    → Tracked owner b.per_stream t
    → (if fails then none else some (assemble b meta)) ≡ some a
    → Lifecycle [] a.ops × Ordered TimeLe a.ops
written_trace owner b t meta fails a v e =
    subst (λ (x : Assembled). Lifecycle [] x.ops × Ordered TimeLe x.ops)
      (of_else fails (assemble b meta) a e)
      (assemble-Lifecycle owner b t meta v, (assemble-Ordered b meta).0)
