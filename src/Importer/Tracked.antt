-- ===== src/Importer/Tracked.antt =====
-- pkg/importer: a builder and a descriptor table that an importer uses together. What the ops added
-- so far say of each handle, and how it agrees with what the table holds.
pub mod Tables
pub mod Moves
pub mod Opens
pub mod Merge
pub mod Written
use ioflux.Prelude.{
  ℕ, negsuc, pos, List, ℤ, Bool, ◌∷◌, ◌≡◌, ◌≤◌, Option, All, [], if◌then◌else◌, ◌++◌, ◌<◌, true,
  some, ◌==◌, refl, false, Bool-cases, lookup, arith, none, int_eq, inl, ◌∙◌, subst, lookup-insert,
  ap, int_beq_iff, All-imp, inr, length,
}
use ioflux.Trace.Types.{op_close, op_open, Op, OpKind}
use ioflux.Importer.Builder.{add, StreamOp, Builder, or_empty}
use ioflux.Importer.FdTable.{FdTable, FdKey}
use ioflux.Validate.Lifecycle.{history, same_handle, HandleFits, track}
use ioflux.Importer.FdTable.Handles.{IsSound, held}
use ioflux.Importer.Builder.Arranged.{Arranged, Arranged-add, Streams}

-- A stream's ops, the latest first.
abbrev pub latest_onto : List Op → List StreamOp → List Op
latest_onto earlier [] = earlier
latest_onto earlier (so ∷ sos) = latest_onto (so.op ∷ earlier) sos

abbrev pub said : ℤ → Streams → List Op
said s m = latest_onto [] (or_empty (lookup s m))

latest_onto-append :
    (earlier : List Op) (sos : List StreamOp) (so : StreamOp)
    → latest_onto earlier (sos ++ so ∷ []) ≡ so.op ∷ latest_onto earlier sos
latest_onto-append earlier [] so = refl
latest_onto-append earlier (x ∷ sos) so = latest_onto-append (x.op ∷ earlier) sos so

pub said-add :
    (op : Op) (b : Builder) (s : ℤ)
    → said s (add op b).per_stream
      ≡ (if op.s == s then op ∷ said s b.per_stream else said s b.per_stream)
unfolding add
said-add op b s = elim (Bool-cases (op.s == s)) [
  | inl e ↦
      let sos = or_empty (lookup op.s b.per_stream) in
      let so : StreamOp = record { stream_id = op.s; local_idx = length sos; op = op } in
      rw (lookup-insert, e)
        (latest_onto-append [] sos so
          ∙ ap (λ i. op ∷ said i b.per_stream) ((int_beq_iff op.s s).0 e))
  | inr e ↦ rw (lookup-insert, e)
]

-- Each op, the latest first, fits what the ops before it say.
abbrev pub Lives : List Op → Type 0
Lives [] = Unit
Lives (op ∷ earlier) = HandleFits op.op op earlier × Lives earlier

-- A handle that was given out, to the stream that owns it.
abbrev pub Owned : (ℕ → ℤ) → ℕ → Option ℤ → ℤ → Type 0
Owned owner n none s = Unit
Owned owner n (some (pos h)) s = (h < n) × (owner h ≡ s)
Owned owner n (some (negsuc h)) s = ⊥

abbrev pub AllOwned : (ℕ → ℤ) → ℕ → List Op → Type 0
AllOwned owner n ops = All (λ op. Owned owner n op.h op.s) ops

pub record Tracked (owner : ℕ → ℤ) (m : Streams) (t : FdTable) : Type 0 where
  pub sound : IsSound t
  pub arranged : Arranged m
  pub lives : (s : ℤ) → Lives (said s m)
  pub owned : (s : ℤ) → AllOwned owner t.next_handle (said s m)
  pub local : (s : ℤ) → All (λ op. op.s ≡ s) (said s m)
  pub opened :
      (k : FdKey) (h : ℕ)
      → held t k ≡ some h
      → (owner h ≡ k.0) × (history (pos h) (said k.0 m) ≡ some (k.0, false))

Owned-grows :
    (owner owner' : ℕ → ℤ) (n n' : ℕ) (h : Option ℤ) (s : ℤ)
    → n ≤ n'
    → ((j : ℕ) → j < n → owner' j ≡ owner j)
    → Owned owner n h s
    → Owned owner' n' h s
Owned-grows owner owner' n n' none s le same o = tt
Owned-grows owner owner' n n' (some (pos h)) s le same (lt, o) = (omega arith, same h lt ∙ o)
Owned-grows owner owner' n n' (some (negsuc h)) s le same o = o

same_handle-above :
    (owner : ℕ → ℤ) (n : ℕ) (o : Option ℤ) (s : ℤ) (h : ℕ)
    → n ≤ h
    → Owned owner n o s
    → same_handle o (pos h) ≡ false
same_handle-above owner n none s h le o = refl
same_handle-above owner n (some (pos j)) s h le (lt, o) = ground arith
same_handle-above owner n (some (negsuc j)) s h le o = absurd o

pub track-other :
    (k : OpKind) (op : Op) (h : ℤ) (known : Option (ℤ × Bool))
    → same_handle op.h h ≡ false
    → track k op h known ≡ known
track-other op_open op h known e = rw e
track-other op_close op h known e = rw e
track-other _ op h known e = refl

-- A handle that was not given out yet has no history.
pub history-unused :
    (owner : ℕ → ℤ) (n h : ℕ) (ops : List Op)
    → n ≤ h
    → AllOwned owner n ops
    → history (pos h) ops ≡ none
history-unused owner n h [] le a = refl
history-unused owner n h (op ∷ ops) le (o, a) =
    track-other op.op op (pos h) (history (pos h) ops) (same_handle-above owner n op.h op.s h le o)
    ∙ history-unused owner n h ops le a

-- What a key's stream says once the op is added.
abbrev pub said_after : Op → Streams → ℤ → List Op
said_after op m s = if op.s == s then op ∷ said s m else said s m

if-All {ℓ κ} :
    {A : Type ℓ} (P : A → Type κ) (b : Bool) (x : A) (xs : List A)
    → (b ≡ true → P x)
    → All P xs
    → All P (if b then x ∷ xs else xs)
if-All P true x xs p a = (p refl, a)
if-All P false x xs p a = a

if-Lives :
    (b : Bool) (op : Op) (ops : List Op)
    → (b ≡ true → HandleFits op.op op ops)
    → Lives ops
    → Lives (if b then op ∷ ops else ops)
if-Lives true op ops f l = (f refl, l)
if-Lives false op ops f l = l

module _ (owner owner' : ℕ → ℤ) (b : Builder) (t t' : FdTable) (op : Op)
    (v : Tracked owner b.per_stream t) where
  -- Where an op that fits is added, and the table changes with it.
  pub Tracked-add :
      IsSound t'
      → t.next_handle ≤ t'.next_handle
      → ((j : ℕ) → j < t.next_handle → owner' j ≡ owner j)
      → HandleFits op.op op (said op.s b.per_stream)
      → Owned owner' t'.next_handle op.h op.s
      → ((k : FdKey) (h : ℕ)
          → held t' k ≡ some h
          → (owner' h ≡ k.0)
            × (history (pos h) (said_after op b.per_stream k.0) ≡ some (k.0, false)))
      → Tracked owner' (add op b).per_stream t'
  Tracked-add sound le same fits own keeps = record {
    sound = sound;
    arranged = Arranged-add op b v.arranged;
    lives = λ s. rw said-add (
        if-Lives (op.s == s) op (said s b.per_stream)
          (λ e.
            subst (λ i. HandleFits op.op op (said i b.per_stream)) ((int_beq_iff op.s s).0 e) fits)
          (v.lives s));
    owned = λ s. rw said-add (
        if-All (λ (x : Op). Owned owner' t'.next_handle x.h x.s) (op.s == s) op
          (said s b.per_stream) (λ e. own)
          (All-imp _ _ (said s b.per_stream)
            (λ x o. Owned-grows owner owner' t.next_handle t'.next_handle x.h x.s le same o)
            (v.owned s)));
    local = λ s. rw said-add (
        if-All (λ (x : Op). x.s ≡ s) (op.s == s) op (said s b.per_stream)
          (λ e. (int_beq_iff op.s s).0 e) (v.local s));
    opened = λ k h e. rw said-add (keeps k h e);
  }

-- Where the table alone changes, and gives out no handle.
pub Tracked-table :
    (owner : ℕ → ℤ) (m : Streams) (t t' : FdTable)
    → Tracked owner m t
    → IsSound t'
    → t.next_handle ≡ t'.next_handle
    → ((k : FdKey) (h : ℕ) → held t' k ≡ some h → held t k ≡ some h)
    → Tracked owner m t'
Tracked-table owner m t t' v sound same keeps = record {
  sound = sound;
  arranged = v.arranged;
  lives = v.lives;
  owned = λ s. subst (λ n. AllOwned owner n (said s m)) same (v.owned s);
  local = v.local;
  opened = λ k h e. v.opened k h (keeps k h e);
}
