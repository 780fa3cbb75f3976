-- ===== src/Validate/Order.antt =====
-- pkg/trace/validate.go: the order of timestamps and of op ids in a trace that passes.
use ioflux.Prelude.{
  ℕ, true, false, Option, none, some, List, [], ◌∷◌, ◌≡◌, arith, ℤ, pos, ◌<ℤ◌, ◌≤ℤ◌, ◌≢◌, is_none,
  Ordered, lookup, All, int_eq, sym, lookup-insert, beq_refl, ap, pair_eq, subst, Bool-cases, ◌==◌,
  inl, pair_beq_iff, inr,
}
use ioflux.Trace.Types.{Header, Op}
use ioflux.Validate.OpId.{stream_group, Ids}
use ioflux.Validate.Loop.{State, validate_with_ops, start}
use ioflux.Validate.Accept.{id_of_fits, time_of_fits, next}
use ioflux.Validate.Step.Ids.{keep_id, id_fits}
use ioflux.Validate.Header.{RawHeader}
use ioflux.Trace.Reader.{Stream}
use ioflux.Validate.Outcome.{Passed, Passed-Accepted}
use ioflux.Validate.Accept.Run.{Accepted}
use ioflux.Validate.Accept.Next.{ids-next, time-next}

abbrev pub ops_of : List (ℕ × Op) → List Op
ops_of [] = []
ops_of ((line, op) ∷ rest) = op ∷ ops_of rest

abbrev pub TimeLe : Op → Op → Type 0
TimeLe a b = a.t ≤ℤ b.t

abbrev pub IsNatural : Option ℤ → Type 0
IsNatural none = ⊥
IsNatural (some v) = pos 0 ≤ℤ v

-- The id is there and is not negative.
abbrev pub HasId : Op → Type 0
HasId op = IsNatural op.op_id

abbrev pub OptionLt : Option ℤ → Option ℤ → Type 0
OptionLt (some a) (some b) = a <ℤ b
OptionLt _ _ = ⊥

-- In one stream and group the later op has the larger id.
abbrev pub IdLt : Op → Op → Type 0
IdLt a b = stream_group a ≡ stream_group b → OptionLt a.op_id b.op_id

abbrev pub IdNe : Op → Op → Type 0
IdNe a b = a.op_id ≢ b.op_id

-- The last id of a group is there and is at least `id`.
abbrev AboveLast : ℤ → Option ℤ → Type 0
AboveLast id none = ⊥
AboveLast id (some last) = id ≤ℤ last

module _ (line : ℕ) (op : Op) (ids : Ids) (id : ℤ) where
  seen-keep_id :
      (o : Option ℤ)
      → is_none (lookup id ids.seen) ≡ false
      → is_none (lookup id (keep_id o line op ids).seen) ≡ false
  seen-keep_id none seen = seen
  seen-keep_id (some i) seen = rw lookup-insert (ground arith)

  seen_ne :
      (o : Option ℤ) → id_fits o op ids ≡ true → is_none (lookup id ids.seen) ≡ false → some id ≢ o
  seen_ne none fits seen e = cc
  seen_ne (some i) fits seen e =
      let same : i ≡ id = cc in
      let unseen : is_none (lookup i ids.seen) ≡ true = ground arith in
      let moved : is_none (lookup i ids.seen) ≡ is_none (lookup id ids.seen) =
        ap (λ (k : ℤ). is_none (lookup k ids.seen)) same in
      cc

  last_lt :
      (o : Option ℤ)
      → id_fits o op ids ≡ true
      → AboveLast id (lookup (stream_group op) ids.last_by_group)
      → OptionLt (some id) o
  last_lt none fits low = cc
  last_lt (some i) fits low = ground arith

  group_moved :
      (g : ℤ × ℤ)
      → stream_group op ≡ g
      → AboveLast id (lookup g ids.last_by_group)
      → AboveLast id (lookup (stream_group op) ids.last_by_group)
  group_moved g e low = subst (λ k. AboveLast id (lookup k ids.last_by_group)) (sym e) low

  -- The last id of a stream and group only grows.
  last-keep_id :
      (g : ℤ × ℤ) (o : Option ℤ)
      → id_fits o op ids ≡ true
      → AboveLast id (lookup g ids.last_by_group)
      → AboveLast id (lookup g (keep_id o line op ids).last_by_group)
  last-keep_id g none fits low = low
  last-keep_id g (some i) fits low = elim (Bool-cases (stream_group op == g)) [
    | inl e ↦
        rw (lookup-insert, e)
          (let lt =
              last_lt (some i) fits (group_moved g ((pair_beq_iff (stream_group op) g).0 e) low) in
            omega arith)
    | inr e ↦ rw (lookup-insert, e) low
  ]

  last-keep_self :
      AboveLast id (lookup (stream_group op) (keep_id (some id) line op ids).last_by_group)
  last-keep_self = rw (lookup-insert, beq_refl (stream_group op)) (omega arith)

  seen-keep_self : is_none (lookup id (keep_id (some id) line op ids).seen) ≡ false
  seen-keep_self = rw (lookup-insert, beq_refl id)

module _ (h : Header) where
  time-All :
      (recs : List (ℕ × Op)) (st : State) (t : ℤ)
      → st.saw_any ≡ true
      → t ≤ℤ st.last_t
      → Accepted h st recs
      → All (λ (op : Op). t ≤ℤ op.t) (ops_of recs)
  time-All [] st t saw le a = tt
  time-All ((line, op) ∷ rest) st t saw le (fits, a) =
      let time = time_of_fits op h st fits in
      let next_time = time-next line op st in
      (
        ground arith,
        time-All rest (next line op st) t next_time.1 (rw next_time.0 (ground arith)) a,
      )

  time-Ordered :
      (recs : List (ℕ × Op)) (st : State) → Accepted h st recs → Ordered TimeLe (ops_of recs)
  time-Ordered [] st a = tt
  time-Ordered ((line, op) ∷ rest) st (fits, a) =
      let time = time_of_fits op h st fits in
      let next_time = time-next line op st in
      (
        time-All rest (next line op st) op.t next_time.1 (rw next_time.0 (ground arith)) a,
        time-Ordered rest (next line op st) a,
      )

  -- An id that was seen does not come again.
  seen-All :
      (recs : List (ℕ × Op)) (st : State) (id : ℤ)
      → is_none (lookup id st.ids.seen) ≡ false
      → Accepted h st recs
      → All (λ (op : Op). some id ≢ op.op_id) (ops_of recs)
  seen-All [] st id seen a = tt
  seen-All ((line, op) ∷ rest) st id seen (fits, a) = (
    seen_ne line op st.ids id op.op_id (id_of_fits op h st fits) seen,
    seen-All rest (next line op st) id
        (rw (ids-next line op h st fits) (seen-keep_id line op st.ids id op.op_id seen)) a,
  )

  -- Below the last id of its group, an id is below all that come.
  last-All :
      (recs : List (ℕ × Op)) (st : State) (g : ℤ × ℤ) (id : ℤ)
      → AboveLast id (lookup g st.ids.last_by_group)
      → Accepted h st recs
      → All (λ (op : Op). g ≡ stream_group op → OptionLt (some id) op.op_id) (ops_of recs)
  last-All [] st g id low a = tt
  last-All ((line, op) ∷ rest) st g id low (fits, a) =
      let ids_fit = id_of_fits op h st fits in
      (
        λ e.
            last_lt line op st.ids id op.op_id ids_fit
              (group_moved line op st.ids id g (sym e) low),
        last-All rest (next line op st) g id
            (rw (ids-next line op h st fits)
              (last-keep_id line op st.ids id g op.op_id ids_fit low))
            a,
      )

  ids_follow :
      (o : Option ℤ) (line : ℕ) (op : Op) (recs : List (ℕ × Op)) (st : State)
      → id_fits o op st.ids ≡ true
      → (next line op st).ids ≡ keep_id o line op st.ids
      → Accepted h (next line op st) recs
      → IsNatural o
        × All (λ (b : Op). o ≢ b.op_id) (ops_of recs)
        × All (λ (b : Op). stream_group op ≡ stream_group b → OptionLt o b.op_id) (ops_of recs)
  ids_follow none line op recs st fits e a = cc
  ids_follow (some id) line op recs st fits e a = (
    ground arith,
    seen-All recs (next line op st) id (rw e (seen-keep_self line op st.ids id)) a,
    last-All recs (next line op st) (stream_group op) id (rw e (last-keep_self line op st.ids id))
        a,
  )

  ids-Ordered :
      (recs : List (ℕ × Op)) (st : State)
      → Accepted h st recs
      → All HasId (ops_of recs) × Ordered IdNe (ops_of recs) × Ordered IdLt (ops_of recs)
  ids-Ordered [] st a = (tt, tt, tt)
  ids-Ordered ((line, op) ∷ rest) st (fits, a) =
      let (has, ne, lt) =
        ids_follow op.op_id line op rest st (id_of_fits op h st fits) (ids-next line op h st fits)
          a in
      let (all, nes, lts) = ids-Ordered rest (next line op st) a in
      ((has, all), (ne, nes), (lt, lts))

module _ {C E : Type 0} (on_op : Op → C → Option E × C) where
  -- In a trace that passes, whatever the callback, no op's timestamp is below that of an earlier op.
  pub time_sorted :
      (raw : Option RawHeader) (h : Header) (stream : Stream) (c : C)
      → Passed (validate_with_ops on_op raw h stream c)
      → Ordered TimeLe (ops_of stream.records)
  time_sorted raw h stream c p =
      time-Ordered h stream.records (start raw h) (Passed-Accepted on_op raw h stream c p).1

  -- In a trace that passes, every op has an id that is not negative, no two ops have the same id, and
  -- of two ops of one stream and group (0 where none is given) the later one has the larger id.
  pub op_ids-Ordered :
      (raw : Option RawHeader) (h : Header) (stream : Stream) (c : C)
      → Passed (validate_with_ops on_op raw h stream c)
      → All HasId (ops_of stream.records)
        × Ordered IdNe (ops_of stream.records)
        × Ordered IdLt (ops_of stream.records)
  op_ids-Ordered raw h stream c p =
      ids-Ordered h stream.records (start raw h) (Passed-Accepted on_op raw h stream c p).1
