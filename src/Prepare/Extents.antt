-- ===== src/Prepare/Extents.antt =====
-- pkg/prepare/prepare.go: what the scan of the ops finds.
use ioflux.Prelude.{
  pos, Option, ℤ, Bool, List, false, if◌then◌else◌, ltb_ℤ, ◌≡◌, some, ◌++◌, ◌∷◌, add64, ◌∙◌, ◌==◌,
  arith, insert, lookup, none, [], ap, refl, Bool-cases, int_eq, inl, sym, inr, int_beq_iff, true,
  lookup-insert,
}
use ioflux.Trace.Types.{op_open, OpKind, Op, transferred_bytes}
use ioflux.Prepare.{
  scan_open, raise_extent, metadata_from_ops, scan_data, scan_ops, Scan, or_zero_size, is_data_op,
  scan_indexed,
}
use ioflux.Payload.Fill.{Config}

-- The targets of the handles, after an op.
abbrev pub opened : OpKind → Option ℤ → Option ℤ → List (ℤ × ℤ) → List (ℤ × ℤ)
opened op_open (some h) (some tgt) owners = insert h tgt owners
opened _ _ _ owners = owners

abbrev is_target : ℤ → Option ℤ → Bool
is_target j none = false
is_target j (some idx) = idx == j

-- The end of the bytes that an op moves through a handle of the target j, as an int64.
abbrev pub end_through : Bool → ℤ → List (ℤ × ℤ) → Option ℤ → Option ℤ → Option ℤ → Op → List ℤ
end_through true j owners (some off) (some len) (some h) op =
    if is_target j (lookup h owners)
    then add64 off (or_zero_size (transferred_bytes op)) ∷ []
    else []
end_through _ j owners _ _ _ op = []

abbrev pub end_at : ℤ → List (ℤ × ℤ) → Op → List ℤ
end_at j owners op = end_through (is_data_op op.op) j owners op.off op.len op.h op

abbrev pub ends : ℤ → List (ℤ × ℤ) → List Op → List ℤ
ends j owners [] = []
ends j owners (op ∷ ops) = end_at j owners op ++ ends j (opened op.op op.h op.tgt owners) ops

abbrev pub farther : ℤ → ℤ → ℤ
farther x e = if ltb_ℤ x e then e else x

abbrev pub farthest : ℤ → List ℤ → ℤ
farthest x [] = x
farthest x (e ∷ es) = farthest (farther x e) es

-- The extent of a target so far: zero if it has none.
abbrev pub extent : ℤ → Scan → ℤ
extent j st = or_zero_size (lookup j st.extents)

extent-raise_extent :
    (idx end j : ℤ) (st : Scan)
    → extent j (raise_extent idx end st)
      ≡ (if idx == j then farther (extent j st) end else extent j st)
unfolding raise_extent
extent-raise_extent idx end j st = elim (Bool-cases (idx == j)) [
  | inl q ↦
      let same = ap (λ (i : ℤ). extent i st) ((int_beq_iff idx j).0 q) in
      elim (Bool-cases (ltb_ℤ (extent idx st) end)) [
        | inl p ↦
            let p' : ltb_ℤ (extent j st) end ≡ true = rw same at p in
            rw (p, lookup-insert idx j end st.extents, q, p') refl
        | inr p ↦ let p' : ltb_ℤ (extent j st) end ≡ false = rw same at p in rw (p, q, p') refl
      ]
  | inr q ↦ elim (Bool-cases (ltb_ℤ (extent idx st) end)) [
    | inl p ↦ rw (p, lookup-insert idx j end st.extents, q) refl
    | inr p ↦ rw (p, q) refl
  ]
]

owners-raise_extent :
    (idx end : ℤ) (st : Scan) → (raise_extent idx end st).handle_to_idx ≡ st.handle_to_idx
unfolding raise_extent
owners-raise_extent idx end st = ground arith

-- What an op does to the extent of j and to the table of handles.
abbrev Takes : ℤ → List ℤ → Scan → Scan → Type 0
Takes j es st st' =
    (extent j st' ≡ farthest (extent j st) es) × (st'.handle_to_idx ≡ st.handle_to_idx)

scan_indexed-Takes :
    (o : Option ℤ) (off : ℤ) (op : Op) (st : Scan) (j : ℤ)
    → Takes j
        (if is_target j o then add64 off (or_zero_size (transferred_bytes op)) ∷ [] else [])
        st
        (scan_indexed o off op st)
scan_indexed-Takes none off op st j = (refl, refl)
scan_indexed-Takes (some idx) off op st j =
    let end = add64 off (or_zero_size (transferred_bytes op)) in
    elim (Bool-cases (idx == j)) [
      | inl q ↦ (extent-raise_extent idx end j st ∙ rw q refl, owners-raise_extent idx end st)
      | inr q ↦ (extent-raise_extent idx end j st ∙ rw q refl, owners-raise_extent idx end st)
    ]

scan_data-Takes :
    (b : Bool) (off len h : Option ℤ) (op : Op) (st : Scan) (j : ℤ)
    → Takes j (end_through b j st.handle_to_idx off len h op) st (scan_data b off len h op st)
unfolding scan_data
scan_data-Takes true (some off) (some len) (some h) op st j =
    scan_indexed-Takes (lookup h st.handle_to_idx) off op st j
scan_data-Takes true (some off) (some len) none op st j = (refl, refl)
scan_data-Takes true (some off) none h op st j = (refl, refl)
scan_data-Takes true none len h op st j = (refl, refl)
scan_data-Takes false off len h op st j = (refl, refl)

scan_open-Takes :
    (k : OpKind) (h tgt : Option ℤ) (op : Op) (st : Scan) (j : ℤ)
    → (extent j (scan_open k h tgt op st)
        ≡ farthest
            (extent j st)
            (end_through (is_data_op k) j st.handle_to_idx op.off op.len op.h op))
      × ((scan_open k h tgt op st).handle_to_idx ≡ opened k h tgt st.handle_to_idx)
unfolding scan_open
scan_open-Takes op_open (some h) (some tgt) op st j = (refl, refl)
scan_open-Takes op_open (some h) none op st j = scan_data-Takes false op.off op.len op.h op st j
scan_open-Takes op_open none tgt op st j = scan_data-Takes false op.off op.len op.h op st j
scan_open-Takes k h tgt op st j = scan_data-Takes (is_data_op k) op.off op.len op.h op st j

farthest-append : (x : ℤ) (es fs : List ℤ) → farthest x (es ++ fs) ≡ farthest (farthest x es) fs
farthest-append x [] fs = refl
farthest-append x (e ∷ es) fs = farthest-append (farther x e) es fs

scan_ops-extent :
    (ops : List Op) (st : Scan) (j : ℤ)
    → extent j (scan_ops st ops) ≡ farthest (extent j st) (ends j st.handle_to_idx ops)
unfolding scan_ops
scan_ops-extent [] st j = refl
scan_ops-extent (op ∷ ops) st j =
    let st' = scan_open op.op op.h op.tgt op st in
    let (here, owners) = scan_open-Takes op.op op.h op.tgt op st j in
    let es = end_at j st.handle_to_idx op in
    let later = opened op.op op.h op.tgt st.handle_to_idx in
    scan_ops-extent ops st' j
    ∙ ap (λ (m : List (ℤ × ℤ)). farthest (extent j st') (ends j m ops)) owners
    ∙ ap (λ (x : ℤ). farthest x (ends j later ops)) here
    ∙ sym (farthest-append (extent j st) es (ends j later ops))

-- The extent that a scan of any ops finds for a target is the largest of 0 and the ends of the READs and
-- WRITEs through the handles that the OPENs before them gave for it, and is 0 for a target without
-- any. An end is the sum, in an int64, of the offset and the bytes that moved.
pub extents-farthest :
    (ops : List Op) (fill_config : Config) (j : ℤ)
    → or_zero_size (lookup j (metadata_from_ops ops fill_config).extents)
      ≡ farthest (pos 0) (ends j [] ops)
unfolding metadata_from_ops lookup
extents-farthest ops fill_config j =
    scan_ops-extent ops (record { extents = []; handle_to_idx = [] }) j
