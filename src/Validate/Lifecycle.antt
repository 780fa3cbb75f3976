-- ===== src/Validate/Lifecycle.antt =====
-- pkg/trace/validate.go: the life of a handle in a trace that passes.
use ioflux.Prelude.{
  ℕ, Bool, true, false, Option, none, some, List, [], ◌∷◌, ◌≡◌, refl, arith, ℤ, ◌==◌, lookup,
  if◌then◌else◌, int_eq, is_none, lookup-insert, Option-cases, sym, ◌∙◌, inl, int_beq_iff, inr,
  length, ap,
}
use ioflux.Trace.Types.{
  op_close, op_fsync, op_open, op_read, op_write, OpKind, Op, Header, op_other, op_kind_valid,
}
use ioflux.Validate.Fields.{HandleState, Handles}
use ioflux.Validate.Verdict.{fresh, live, in_range, open_on}
use ioflux.Validate.Loop.{close_at, State, start, validate_with_ops}
use ioflux.Validate.Accept.{open_handle, handles_after, fields_of_fits, valid_of_fits, next}
use ioflux.Validate.Step.{fields_fit}
use ioflux.Validate.Header.{RawHeader}
use ioflux.Validate.Order.{ops_of}
use ioflux.Trace.Reader.{Stream}
use ioflux.Validate.Outcome.{Passed, header-start, Passed-Accepted}
use ioflux.Validate.Accept.Run.{Accepted}
use ioflux.Validate.Accept.Next.{header-next, handles-next}

-- Whether the op gives or ends the handle `h`.
abbrev pub same_handle : Option ℤ → ℤ → Bool
same_handle none h = false
same_handle (some j) h = j == h

abbrev pub shut : Option (ℤ × Bool) → Option (ℤ × Bool)
shut none = none
shut (some (s, closed)) = some (s, true)

-- How an op changes what is known of the handle `h`: its stream, and whether it is closed.
abbrev pub track : OpKind → Op → ℤ → Option (ℤ × Bool) → Option (ℤ × Bool)
track op_open op h known = if same_handle op.h h then some (op.s, false) else known
track op_close op h known = if same_handle op.h h then shut known else known
track _ op h known = known

-- What the ops so far, the latest first, say of a handle.
abbrev pub history : ℤ → List Op → Option (ℤ × Bool)
history h [] = none
history h (op ∷ earlier) = track op.op op h (history h earlier)

-- What the ops before it say of an op: one on a handle finds the handle opened on its own stream and
-- not closed, and an OPEN brings a handle that no op before it opened.
abbrev pub HandleIsOpen : Option ℤ → ℤ → List Op → Type 0
HandleIsOpen none s earlier = ⊥
HandleIsOpen (some h) s earlier = history h earlier ≡ some (s, false)

abbrev pub HandleIsNew : Option ℤ → List Op → Type 0
HandleIsNew none earlier = ⊥
HandleIsNew (some h) earlier = history h earlier ≡ none

abbrev pub HandleFits : OpKind → Op → List Op → Type 0
HandleFits op_open op earlier = HandleIsNew op.h earlier
HandleFits op_read op earlier = HandleIsOpen op.h op.s earlier
HandleFits op_write op earlier = HandleIsOpen op.h op.s earlier
HandleFits op_fsync op earlier = HandleIsOpen op.h op.s earlier
HandleFits op_close op earlier = HandleIsOpen op.h op.s earlier
HandleFits _ op earlier = op.h ≡ none

abbrev pub Lifecycle : List Op → List Op → Type 0
Lifecycle earlier [] = Unit
Lifecycle earlier (op ∷ rest) = HandleFits op.op op earlier × Lifecycle (op ∷ earlier) rest

-- The handle table holds what the history says.
abbrev view : Option HandleState → Option (ℤ × Bool)
view none = none
view (some st) = some (st.stream, st.closed)

abbrev Tracks : Handles → List Op → Type 0
Tracks hs earlier = (h : ℤ) → view (lookup h hs) ≡ history h earlier

pub none_of_is_none {ℓ} : {A : Type ℓ} (o : Option A) → is_none o ≡ true → o ≡ none
none_of_is_none none e = refl
none_of_is_none (some v) e = cc

module _ (line : ℕ) (op : Op) (hs : Handles) where
  view-open :
      (o t : Option ℤ) (h : ℤ)
      → fresh o hs ≡ true
      → is_none t ≡ false
      → view (lookup h (open_handle o t line op hs))
        ≡ (if same_handle o h then some (op.s, false) else view (lookup h hs))
  view-open none t h f g = cc
  view-open (some j) none h f g = cc
  view-open (some j) (some t) h f g = rw lookup-insert (ground arith)

view-close :
    (hs : Handles) (o : Option ℤ) (h : ℤ)
    → view (lookup h (close_at o hs))
      ≡ (if same_handle o h then shut (view (lookup h hs)) else view (lookup h hs))
unfolding close_at
view-close hs none h = refl
view-close hs (some j) h = elim (Option-cases (lookup j hs)) [
  | inl p ↦ rw (p, close_at) (ground (arith, p, int_beq_iff j h))
  | inr (st, p) ↦ rw (p, close_at, lookup-insert) (ground (arith, p, int_beq_iff j h))
]

live_open :
    (op : Op) (o : Option ℤ) (hs : Handles) (earlier : List Op)
    → Tracks hs earlier
    → live op o hs ≡ true
    → HandleIsOpen o op.s earlier
live_open op none hs earlier ok l = cc
live_open op (some h) hs earlier ok l = sym (ok h) ∙ opened (lookup h hs) l
  where
    opened : (o : Option HandleState) → open_on op.s o ≡ true → view o ≡ some (op.s, false)
    opened none e = cc
    opened (some st) e = ground (arith, int_beq_iff st.stream op.s)

fresh_new :
    (o : Option ℤ) (hs : Handles) (earlier : List Op)
    → Tracks hs earlier
    → fresh o hs ≡ true
    → HandleIsNew o earlier
fresh_new none hs earlier ok f = cc
fresh_new (some h) hs earlier ok f = sym (ok h) ∙ ap view (none_of_is_none (lookup h hs) f)

in_range_some : (n : ℕ) (t : Option ℤ) → in_range n t ≡ true → is_none t ≡ false
in_range_some n none e = cc
in_range_some n (some t) e = refl

-- The handle table after an op is what the history says after it.
view-handles_after :
    (k : OpKind) (line : ℕ) (op : Op) (h : Header) (hs : Handles) (j : ℤ)
    → fields_fit k op h hs ≡ true
    → view (lookup j (handles_after k line op hs)) ≡ track k op j (view (lookup j hs))
view-handles_after op_open line op h hs j f =
    view-open line op hs op.h op.tgt j (ground arith)
      (in_range_some (length h.targets) op.tgt (ground arith))
view-handles_after op_close line op h hs j f = view-close hs op.h j
view-handles_after _ line op h hs j f = refl

HandleFits-of_fits :
    (k : OpKind) (op : Op) (h : Header) (hs : Handles) (earlier : List Op)
    → Tracks hs earlier
    → op_kind_valid k ≡ true
    → fields_fit k op h hs ≡ true
    → HandleFits k op earlier
HandleFits-of_fits op_open op h hs earlier ok v f = fresh_new op.h hs earlier ok (ground arith)
HandleFits-of_fits op_read op h hs earlier ok v f = live_open op op.h hs earlier ok (ground arith)
HandleFits-of_fits op_write op h hs earlier ok v f = live_open op op.h hs earlier ok (ground arith)
HandleFits-of_fits op_fsync op h hs earlier ok v f = live_open op op.h hs earlier ok (ground arith)
HandleFits-of_fits op_close op h hs earlier ok v f = live_open op op.h hs earlier ok (ground arith)
HandleFits-of_fits (op_other _) op h hs earlier ok v f = cc
HandleFits-of_fits _ op h hs earlier ok v f = none_of_is_none op.h (ground arith)

Accepted-Lifecycle :
    (h : Header) (recs : List (ℕ × Op)) (st : State) (earlier : List Op)
    → st.report.header ≡ h
    → Tracks st.handles earlier
    → Accepted h st recs
    → Lifecycle earlier (ops_of recs)
Accepted-Lifecycle h [] st earlier same ok a = tt
Accepted-Lifecycle h ((line, op) ∷ rest) st earlier same ok (fits, a) =
    let fields = fields_of_fits op h st fits in
    (
      HandleFits-of_fits op.op op h st.handles earlier ok (valid_of_fits op h st fits) fields,
      Accepted-Lifecycle h rest (next line op st) (op ∷ earlier) (header-next line op st ∙ same)
          (λ j.
            ap (λ hs. view (lookup j hs)) (handles-next line op h st same fits)
            ∙ view-handles_after op.op line op h st.handles j fields
            ∙ ap (track op.op op j) (ok j))
          a,
    )

module _ {C E : Type 0} (on_op : Op → C → Option E × C) where
  -- In a trace that passes, each READ, WRITE, FSYNC and CLOSE is on a handle that an earlier OPEN of
  -- the same stream gave and that no CLOSE has ended since, each OPEN gives a handle that no earlier
  -- OPEN gave, and no other op carries a handle.
  pub handle-Lifecycle :
      (raw : Option RawHeader) (h : Header) (stream : Stream) (c : C)
      → Passed (validate_with_ops on_op raw h stream c)
      → Lifecycle [] (ops_of stream.records)
  unfolding start lookup
  handle-Lifecycle raw h stream c p =
      Accepted-Lifecycle h stream.records (start raw h) [] (header-start raw h) (λ j. refl)
        (Passed-Accepted on_op raw h stream c p).1
