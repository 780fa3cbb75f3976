-- ===== src/Validate/Schema.antt =====
-- pkg/trace/validate.go: the fields of each op in a trace that passes.
use ioflux.Prelude.{
  ℕ, true, ◌&&◌, Option, none, some, List, [], ◌∷◌, ◌≡◌, refl, arith, ℤ, pos, ◌≤ℤ◌, ◌<ℤ◌, length,
  ◌⊎◌, ◌||◌, is_nil, ap, inl, inr, All,
}
use ioflux.Trace.Types.{
  mode_empty, op_close, op_delete, op_fsync, op_get, op_head, op_open, op_other, op_put, op_read,
  op_stat, op_write, Header, OpKind, Op, mode_valid, op_kind_valid, version_of_ret, min_version,
}
use ioflux.Validate.Verdict.{in_range, non_negative, dur_fits, ret_fits, at_most, fresh, live}
use ioflux.Validate.Order.{IsNatural, ops_of}
use ioflux.Validate.Fields.{Handles, is_open, is_mode_empty, carries_ret}
use ioflux.Validate.Step.{fields_fit}
use ioflux.Validate.Lifecycle.{none_of_is_none}
use ioflux.Validate.Loop.{State, validate_with_ops, start}
use ioflux.Validate.Header.{RawHeader}
use ioflux.Validate.Outcome.{Passed, Passed-Accepted}
use ioflux.Validate.Accept.{ret_of_fits, valid_of_fits, fields_of_fits, open_of_fits, next}
use ioflux.Trace.Reader.{Stream}
use ioflux.Validate.Accept.Run.{Accepted}

-- An index of the target table.
abbrev pub IsTarget : ℕ → Option ℤ → Type 0
IsTarget n none = ⊥
IsTarget n (some t) = (pos 0 ≤ℤ t) × (t <ℤ pos n)

abbrev pub IsAbsent : Option ℤ → Type 0
IsAbsent o = o ≡ none

-- A field that may be missing, and is not negative otherwise.
abbrev pub IsNaturalOrAbsent : Option ℤ → Type 0
IsNaturalOrAbsent none = Unit
IsNaturalOrAbsent (some v) = pos 0 ≤ℤ v

abbrev pub IsPresent : Option ℤ → Type 0
IsPresent none = ⊥
IsPresent (some v) = Unit

-- The fields that each kind of op carries, with n targets in the header.
abbrev pub KindFields : OpKind → ℕ → Op → Type 0
KindFields op_open n op =
    IsTarget n op.tgt
    × IsPresent op.h
    × (mode_valid op.mode ≡ true)
    × IsAbsent op.off
    × IsAbsent op.len
KindFields op_read n op = IsPresent op.h × IsAbsent op.tgt × IsNatural op.off × IsNatural op.len
KindFields op_write n op = IsPresent op.h × IsAbsent op.tgt × IsNatural op.off × IsNatural op.len
KindFields op_fsync n op = IsPresent op.h × IsAbsent op.tgt × IsAbsent op.off × IsAbsent op.len
KindFields op_close n op = IsPresent op.h × IsAbsent op.tgt × IsAbsent op.off × IsAbsent op.len
KindFields op_get n op = IsTarget n op.tgt × IsAbsent op.h × IsNatural op.off × IsNatural op.len
KindFields op_put n op = IsTarget n op.tgt × IsAbsent op.h × IsAbsent op.off × IsNatural op.len
KindFields op_stat n op = IsTarget n op.tgt × IsAbsent op.h × IsAbsent op.off × IsAbsent op.len
KindFields op_head n op = IsTarget n op.tgt × IsAbsent op.h × IsAbsent op.off × IsAbsent op.len
KindFields op_delete n op = IsTarget n op.tgt × IsAbsent op.h × IsAbsent op.off × IsAbsent op.len
KindFields (op_other _) n op = ⊥

abbrev pub AtMost : ℤ → Option ℤ → Type 0
AtMost r none = Unit
AtMost r (some len) = r ≤ℤ len

-- A partial transfer: on a READ or GET, not negative, at most the request, and declared by a header
-- whose version, if it is positive, is at least 2.
abbrev pub RetFits : Option ℤ → ℤ → Op → Type 0
RetFits none version op = Unit
RetFits (some r) version op =
    ((op.op ≡ op_read) ⊎ (op.op ≡ op_get))
    × (pos 0 ≤ℤ r)
    × AtMost r op.len
    × (pos 0 <ℤ version → pos 2 ≤ℤ version)

-- Only an OPEN carries a mode and flags.
abbrev pub Plain : OpKind → Op → Type 0
Plain op_open op = Unit
Plain _ op = (op.mode ≡ mode_empty) × (op.flags ≡ [])

abbrev pub FitsSchema : Header → Op → Type 0
FitsSchema h op =
    KindFields op.op (length h.targets) op
    × Plain op.op op
    × RetFits op.ret h.version op
    × IsNaturalOrAbsent op.dur

IsTarget-of : (n : ℕ) (o : Option ℤ) → in_range n o ≡ true → IsTarget n o
IsTarget-of n none e = cc
IsTarget-of n (some t) e = ground arith

IsPresent-of_fresh : (o : Option ℤ) (hs : Handles) → fresh o hs ≡ true → IsPresent o
IsPresent-of_fresh none hs e = cc
IsPresent-of_fresh (some h) hs e = tt

IsPresent-of_live : (op : Op) (o : Option ℤ) (hs : Handles) → live op o hs ≡ true → IsPresent o
IsPresent-of_live op none hs e = cc
IsPresent-of_live op (some h) hs e = tt

IsNatural-of : (o : Option ℤ) → non_negative o ≡ true → IsNatural o
IsNatural-of none e = cc
IsNatural-of (some v) e = ground arith

carries_ret_kind : (k : OpKind) → carries_ret k ≡ true → (k ≡ op_read) ⊎ (k ≡ op_get)
carries_ret_kind op_read e = inl refl
carries_ret_kind op_get e = inr refl
carries_ret_kind _ e = cc

at_most_fits : (r : ℤ) (len : Option ℤ) → at_most r len ≡ true → AtMost r len
at_most_fits r none e = tt
at_most_fits r (some len) e = ground arith

ret_parts :
    (r version : ℤ) (op : Op)
    → ret_fits version op (some r) ≡ true
    → (carries_ret op.op ≡ true)
      × (pos 0 ≤ℤ r)
      × (at_most r op.len ≡ true)
      × (min_version op ≡ 2 → pos 0 <ℤ version → pos 2 ≤ℤ version)
ret_parts r version op e = (ground arith, ground arith, ground arith, ground arith)

module _ (h : Header) (hs : Handles) (op : Op) where
  KindFields-of_fits :
      (k : OpKind)
      → op_kind_valid k ≡ true
      → fields_fit k op h hs ≡ true
      → KindFields k (length h.targets) op
  KindFields-of_fits op_open v f = (
    IsTarget-of (length h.targets) op.tgt (ground arith),
    IsPresent-of_fresh op.h hs (ground arith),
    ground arith,
    none_of_is_none op.off (ground arith),
    none_of_is_none op.len (ground arith),
  )
  KindFields-of_fits op_read v f = (
    IsPresent-of_live op op.h hs (ground arith),
    none_of_is_none op.tgt (ground arith),
    IsNatural-of op.off (ground arith),
    IsNatural-of op.len (ground arith),
  )
  KindFields-of_fits op_write v f = (
    IsPresent-of_live op op.h hs (ground arith),
    none_of_is_none op.tgt (ground arith),
    IsNatural-of op.off (ground arith),
    IsNatural-of op.len (ground arith),
  )
  KindFields-of_fits op_fsync v f = (
    IsPresent-of_live op op.h hs (ground arith),
    none_of_is_none op.tgt (ground arith),
    none_of_is_none op.off (ground arith),
    none_of_is_none op.len (ground arith),
  )
  KindFields-of_fits op_close v f = (
    IsPresent-of_live op op.h hs (ground arith),
    none_of_is_none op.tgt (ground arith),
    none_of_is_none op.off (ground arith),
    none_of_is_none op.len (ground arith),
  )
  KindFields-of_fits op_get v f = (
    IsTarget-of (length h.targets) op.tgt (ground arith),
    none_of_is_none op.h (ground arith),
    IsNatural-of op.off (ground arith),
    IsNatural-of op.len (ground arith),
  )
  KindFields-of_fits op_put v f = (
    IsTarget-of (length h.targets) op.tgt (ground arith),
    none_of_is_none op.h (ground arith),
    none_of_is_none op.off (ground arith),
    IsNatural-of op.len (ground arith),
  )
  KindFields-of_fits (op_other _) v f = cc
  KindFields-of_fits _ v f = (
    IsTarget-of (length h.targets) op.tgt (ground arith),
    none_of_is_none op.h (ground arith),
    none_of_is_none op.off (ground arith),
    none_of_is_none op.len (ground arith),
  )

  Plain-of_fits :
      (k : OpKind) → (is_open k || is_mode_empty op.mode && is_nil op.flags) ≡ true → Plain k op
  Plain-of_fits op_open e = tt
  Plain-of_fits _ e = ground arith

  RetFits-of_fits :
      (r : Option ℤ) → ret_fits h.version op r ≡ true → op.ret ≡ r → RetFits r h.version op
  RetFits-of_fits none e p = tt
  RetFits-of_fits (some r) e p =
      let (kind, natural, fits, known) = ret_parts r h.version op e in
      (
        carries_ret_kind op.op kind,
        natural,
        at_most_fits r op.len fits,
        known (ap version_of_ret p),
      )

  dur_of_fits : (d : Option ℤ) → dur_fits d ≡ true → IsNaturalOrAbsent d
  dur_of_fits none e = tt
  dur_of_fits (some v) e = ground arith

Accepted-FitsSchema :
    (h : Header) (recs : List (ℕ × Op)) (st : State)
    → Accepted h st recs
    → All (FitsSchema h) (ops_of recs)
Accepted-FitsSchema h [] st a = tt
Accepted-FitsSchema h ((line, op) ∷ rest) st (e, a) =
    let (ret, dur) = ret_of_fits op h st e in
    let hs = st.handles in
    (
      (
        KindFields-of_fits h hs op op.op (valid_of_fits op h st e) (fields_of_fits op h st e),
        Plain-of_fits h hs op op.op (open_of_fits op h st e),
        RetFits-of_fits h hs op op.ret ret refl,
        dur_of_fits h hs op op.dur dur,
      ),
      Accepted-FitsSchema h rest (next line op st) a,
    )

module _ {C E : Type 0} (on_op : Op → C → Option E × C) where
  -- In a trace that passes, every op has a known kind and, of target, handle, offset and length, exactly
  -- the ones of its kind: a target is an index of the target table, an offset and a length are not
  -- negative. An OPEN has a valid mode, and no other op a mode or flags. A partial transfer is
  -- recorded only on a READ or GET, at most the request and not negative, under a header whose version,
  -- if it is positive, is at least 2; and no duration is negative.
  pub ops_fit_schema :
      (raw : Option RawHeader) (h : Header) (stream : Stream) (c : C)
      → Passed (validate_with_ops on_op raw h stream c)
      → All (FitsSchema h) (ops_of stream.records)
  ops_fit_schema raw h stream c p =
      Accepted-FitsSchema h stream.records (start raw h) (Passed-Accepted on_op raw h stream c p).1
