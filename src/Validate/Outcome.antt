-- ===== src/Validate/Outcome.antt =====
-- pkg/trace/validate.go: what an accepting run of `ValidateWithOps` comes down to.
use mathlib.Core.Bool.{and_assoc}
use ioflux.Prelude.{
  ℕ, Bool, true, false, ◌&&◌, Option, none, some, List, [], ◌∷◌, ◌≡◌, refl, pos, String, ◌==◌, ◌∙◌,
  length, if◌then◌else◌, int_eq, ap, sym,
}
use ioflux.Validate.Report.{never_closed, Msg, Report, ok, add_warning, ok-add_warning}
use ioflux.Trace.Types.{Header, Op}
use ioflux.Validate.Loop.{
  conclude, warn_open, validate_summary_agreement, State, Failure, start, conclude_at,
  validate_with_ops, run,
}
use ioflux.Validate.Tally.{Tally, tally, tally_laws}
use ioflux.Validate.Fields.{Handles}
use ioflux.Validate.Verdict.{ok-error_unless}
use ioflux.Trace.Reader.{eof, parse_error, scan_error, Stream, End}
use ioflux.Validate.Accept.{count_ret, count_in, next, and_head, and_tail}
use ioflux.Validate.Header.{RawHeader}
use ioflux.Validate.Header.Tally.{tally-validate_header, tally-validate_header_presence}
use ioflux.Validate.Accept.Run.{Accepted, after, run-after, ok-after}
use ioflux.Validate.Accept.Next.{tally-next}

-- The declared counts are those of the ops.
abbrev pub agrees : Tally → Bool
agrees t =
    let s = t.header.summary in
    s.num_ops == pos t.num_ops_read
    && s.num_streams == pos (length t.streams)
    && s.num_partial_reads == pos t.num_partial_reads

ok-warning_unless :
    (b : Bool) (f : String) (m : Msg) (rep : Report)
    → ok (if b then rep else add_warning 0 f m rep) ≡ ok rep
ok-warning_unless true f m rep = refl
ok-warning_unless false f m rep = ok-add_warning 0 f m rep

ok-warn_open : (hs : Handles) (rep : Report) → ok (warn_open hs rep) ≡ ok rep
unfolding warn_open
ok-warn_open [] rep = refl
ok-warn_open ((h, st) ∷ hs) rep =
    ok-warn_open hs _ ∙ ok-warning_unless st.closed "open" (never_closed h st.stream st.target) rep

tally-warn_open : (hs : Handles) (rep : Report) → tally (warn_open hs rep) ≡ tally rep
unfolding warn_open
tally-warn_open [] rep = refl
tally-warn_open ((h, st) ∷ hs) rep = simp (tally-warn_open hs, tally_laws)

ok-validate_summary_agreement :
    (rep : Report) → ok (validate_summary_agreement rep) ≡ (ok rep && agrees (tally rep))
unfolding validate_summary_agreement tally
ok-validate_summary_agreement rep = simp (ok-error_unless, and_assoc)

ok-conclude : (st : State) → ok (conclude st) ≡ (ok st.report && agrees (tally st.report))
unfolding conclude
ok-conclude st = simp (ok-validate_summary_agreement, ok-warn_open, tally-warn_open)

pub header-start : (raw : Option RawHeader) (h : Header) → (start raw h).report.header ≡ h
unfolding start tally
header-start raw h =
    ap (λ t. t.header) (tally-validate_header h _ ∙ tally-validate_header_presence raw _)

abbrev pub no_counts : Header → Tally
no_counts h = record { header = h; num_ops_read = 0; num_partial_reads = 0; streams = [] }

tally-start : (raw : Option RawHeader) (h : Header) → tally (start raw h).report ≡ no_counts h
unfolding start tally
tally-start raw h = tally-validate_header h _ ∙ tally-validate_header_presence raw _

-- The counts of a list of ops.
abbrev pub count_all : List (ℕ × Op) → Tally → Tally
count_all [] t = t
count_all ((line, op) ∷ rest) t = count_all rest (count_ret op (count_in op t))

tally-after :
    (h : Header) (recs : List (ℕ × Op)) (st : State)
    → Accepted h st recs
    → tally (after st recs).report ≡ count_all recs (tally st.report)
tally-after h [] st a = refl
tally-after h ((line, op) ∷ rest) st (fits, a) =
    tally-after h rest (next line op st) a ∙ ap (count_all rest) (tally-next line op h st fits)

-- The trace was read to its end, no callback failed, and the report has no errors.
abbrev pub Passed : {C E : Type 0} → Report × C × Option (Failure E) → Type 0
Passed r = (r.2 ≡ none) × (ok r.0 ≡ true)

module _ {C E : Type 0} (on_op : Op → C → Option E × C) where
  pub conclude_at-Passed :
      (end : End) (r : State × C × Option (Failure E))
      → Passed (conclude_at on_op end r)
      → (r.2 ≡ none) × (ok (conclude r.0) ≡ true)
  unfolding conclude_at
  conclude_at-Passed eof (st, c, none) h = h
  conclude_at-Passed (scan_error l) (st, c, none) h = cc
  conclude_at-Passed (parse_error l) (st, c, none) h = cc
  conclude_at-Passed end (st, c, some e) h = cc

  -- A trace passes only if each op passes in turn and the counts agree with the header.
  pub Passed-Accepted :
      (raw : Option RawHeader) (h : Header) (stream : Stream) (c : C)
      → Passed (validate_with_ops on_op raw h stream c)
      → (ok (start raw h).report ≡ true)
        × Accepted h (start raw h) stream.records
        × (agrees (count_all stream.records (no_counts h)) ≡ true)
  unfolding validate_with_ops
  Passed-Accepted raw h stream c p =
      let st0 = start raw h in
      let (whole, good) = conclude_at-Passed stream.finish (run on_op stream.records st0 c) p in
      let done = run-after on_op stream.records st0 c whole in
      let both =
        sym (ok-conclude (after st0 stream.records))
        ∙ sym (ap (λ s. ok (conclude s)) done)
        ∙ good in
      let (first, a) = ok-after h stream.records st0 (header-start raw h) (and_head _ _ both) in
      (
        first,
        a,
        ap agrees (
              sym (
                tally-after h stream.records st0 a
                ∙ ap (count_all stream.records) (tally-start raw h)))
            ∙ and_tail _ _ both,
      )
