-- ===== src/Importer/Tracked/Merge.antt =====
-- pkg/importer/build.go: the lives of the handles in the trace that a build writes.
use ioflux.Prelude.{
  ℕ, int_eq, negsuc, pos, Option, ℤ, List, ◌≡◌, ◌∷◌, Bool, some, map, All, none, [], keep, ◌∙◌,
  ◌==◌, sym, false, ap, true, refl, if◌then◌else◌, Bool-cases, beq_refl, inl, inr, arith, ◌≢◌,
  int_beq_iff,
}
use ioflux.Trace.Types.{op_close, op_fsync, op_open, op_read, op_write, Op, OpKind}
use ioflux.Validate.Lifecycle.{HandleIsOpen, HandleFits, history, HandleIsNew, track, same_handle}
use ioflux.Importer.Tracked.{Lives, AllOwned, Owned, track-other}

-- What an op says of handles, without its time and its id.
abbrev pub forget : Op → Op
forget op = record op { t = pos 0; op_id = none }

abbrev pub onto : List Op → List Op → List Op
onto earlier [] = earlier
onto earlier (op ∷ ops) = onto (op ∷ earlier) ops

track-forget :
    (k : OpKind) (op : Op) (h : ℤ) (known : Option (ℤ × Bool))
    → track k (forget op) h known ≡ track k op h known
track-forget op_open op h known = refl
track-forget op_close op h known = refl
track-forget _ op h known = refl

history-forget : (h : ℤ) (ops : List Op) → history h (map forget ops) ≡ history h ops
history-forget h [] = refl
history-forget h (op ∷ ops) =
    track-forget op.op op h (history h (map forget ops))
    ∙ ap (track op.op op h) (history-forget h ops)

-- A way to look at the ops before an op under which what holds of the handle `o` stays as it is.
abbrev SameHistory : Option ℤ → List Op → List Op → Type 0
SameHistory none xs ys = Unit
SameHistory (some h) xs ys = history h xs ≡ history h ys

same_open :
    (o : Option ℤ) (s : ℤ) (xs ys : List Op)
    → SameHistory o xs ys
    → HandleIsOpen o s xs
    → HandleIsOpen o s ys
same_open none s xs ys e h = h
same_open (some j) s xs ys e h = sym e ∙ h

same_new :
    (o : Option ℤ) (xs ys : List Op) → SameHistory o xs ys → HandleIsNew o xs → HandleIsNew o ys
same_new none xs ys e h = h
same_new (some j) xs ys e h = sym e ∙ h

same_fits :
    (k : OpKind) (op : Op) (xs ys : List Op)
    → SameHistory op.h xs ys
    → HandleFits k op xs
    → HandleFits k op ys
same_fits op_open op xs ys e f = same_new op.h xs ys e f
same_fits op_read op xs ys e f = same_open op.h op.s xs ys e f
same_fits op_write op xs ys e f = same_open op.h op.s xs ys e f
same_fits op_fsync op xs ys e f = same_open op.h op.s xs ys e f
same_fits op_close op xs ys e f = same_open op.h op.s xs ys e f
same_fits _ op xs ys e f = f

fits-forget :
    (k : OpKind) (op : Op) (xs : List Op) → HandleFits k op xs → HandleFits k (forget op) xs
fits-forget op_open op xs f = f
fits-forget op_read op xs f = f
fits-forget op_write op xs f = f
fits-forget op_fsync op xs f = f
fits-forget op_close op xs f = f
fits-forget _ op xs f = f

fits-remember :
    (k : OpKind) (op : Op) (xs : List Op) → HandleFits k (forget op) xs → HandleFits k op xs
fits-remember op_open op xs f = f
fits-remember op_read op xs f = f
fits-remember op_write op xs f = f
fits-remember op_fsync op xs f = f
fits-remember op_close op xs f = f
fits-remember _ op xs f = f

history_same : (o : Option ℤ) (ops : List Op) → SameHistory o ops (map forget ops)
history_same none ops = tt
history_same (some h) ops = sym (history-forget h ops)

history_same' : (o : Option ℤ) (ops : List Op) → SameHistory o (map forget ops) ops
history_same' none ops = tt
history_same' (some h) ops = history-forget h ops

pub Lives-forget : (ops : List Op) → Lives ops → Lives (map forget ops)
Lives-forget [] l = tt
Lives-forget (op ∷ ops) (f, l) = (
  same_fits op.op (forget op) ops (map forget ops) (history_same op.h ops)
      (fits-forget op.op op ops f),
  Lives-forget ops l,
)

pub Lives-remember : (ops : List Op) → Lives (map forget ops) → Lives ops
Lives-remember [] l = tt
Lives-remember (op ∷ ops) (f, l) = (
  same_fits op.op op (map forget ops) ops (history_same' op.h ops)
      (fits-remember op.op op (map forget ops) f),
  Lives-remember ops l,
)

true≢false : true ≢ false
true≢false e = cc

-- The ops of one stream.
abbrev pub of_stream : ℤ → Op → Bool
of_stream s op = op.s == s

module _ (owner : ℕ → ℤ) (n : ℕ) where
  -- What a stream's own ops say of a handle that it owns is what all ops say.
  history-keep :
      (s : ℤ) (h : ℕ) (ops : List Op)
      → owner h ≡ s
      → AllOwned owner n ops
      → history (pos h) (keep (of_stream s) ops) ≡ history (pos h) ops
  history-keep s h [] o a = refl
  history-keep s h (op ∷ ops) o (p, a) = elim (Bool-cases (op.s == s)) [
    | inl e ↦ rw e (ap (track op.op op (pos h)) (history-keep s h ops o a))
    | inr e ↦ rw e (
        history-keep s h ops o a
        ∙ sym (track-other op.op op (pos h) (history (pos h) ops) (other_owner op.h op.s e p)))
  ]
    where
      other_owner :
          (j : Option ℤ) (s' : ℤ)
          → (s' == s) ≡ false
          → Owned owner n j s'
          → same_handle j (pos h) ≡ false
      other_owner none s' e p = refl
      other_owner (some (pos j)) s' e p = elim (Bool-cases (pos j == pos h)) [
        | inl q ↦
            let equal : j ≡ h = ground (arith, q) in
            let same : s' ≡ s = sym p.1 ∙ ap owner equal ∙ o in
            absurd (true≢false (sym ((int_beq_iff s' s).1 same) ∙ e))
        | inr q ↦ q
      ]
      other_owner (some (negsuc j)) s' e p = absurd p

  keep_same :
      (o : Option ℤ) (s : ℤ) (ops : List Op)
      → Owned owner n o s
      → AllOwned owner n ops
      → SameHistory o (keep (of_stream s) ops) ops
  keep_same none s ops p a = tt
  keep_same (some (pos h)) s ops p a = history-keep s h ops p.1 a
  keep_same (some (negsuc h)) s ops p a = absurd p

  -- Ops of several streams, each of which fits among its own, fit among all.
  pub Lives-merge :
      (ops : List Op)
      → AllOwned owner n ops
      → ((s : ℤ) → Lives (keep (of_stream s) ops))
      → Lives ops
  Lives-merge [] a l = tt
  Lives-merge (op ∷ ops) (p, a) l = (
    same_fits op.op op (keep (of_stream op.s) ops) ops (keep_same op.h op.s ops p a)
        (own_head (of_stream op.s op) (beq_refl op.s) (l op.s)),
    Lives-merge ops a (λ s. below s (of_stream s op) (l s)),
  )
    where
      own_head :
          (c : Bool)
          → c ≡ true
          → Lives (if c then op ∷ keep (of_stream op.s) ops else keep (of_stream op.s) ops)
          → HandleFits op.op op (keep (of_stream op.s) ops)
      own_head true e h = h.0
      own_head false e h = cc

      below :
          (s : ℤ) (c : Bool)
          → Lives (if c then op ∷ keep (of_stream s) ops else keep (of_stream s) ops)
          → Lives (keep (of_stream s) ops)
      below s true h = h.1
      below s false h = h

-- What holds of the ops of every stream holds of all.
pub All-streams :
    (P : Op → Type 0) (ops : List Op) → ((s : ℤ) → All P (keep (of_stream s) ops)) → All P ops
All-streams P [] a = tt
All-streams P (op ∷ ops) a = (
  own_head (of_stream op.s op) (beq_refl op.s) (a op.s),
  All-streams P ops (λ s. below s (of_stream s op) (a s)),
)
  where
    own_head :
        (c : Bool)
        → c ≡ true
        → All P (if c then op ∷ keep (of_stream op.s) ops else keep (of_stream op.s) ops)
        → P op
    own_head true e h = h.0
    own_head false e h = cc

    below :
        (s : ℤ) (c : Bool)
        → All P (if c then op ∷ keep (of_stream s) ops else keep (of_stream s) ops)
        → All P (keep (of_stream s) ops)
    below s true h = h.1
    below s false h = h
