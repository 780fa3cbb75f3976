-- ===== src/Transform/SplitReads.antt =====
-- pkg/transform/splitreads.go. The int64 arithmetic of the loop wraps as in Go. The loop takes fuel,
-- and `unfinished` is the result where it runs out; the header's texts are parameters.
pub mod Cover
use ioflux.Prelude.{
  ℕ, zero, suc, Bool, true, false, Option, none, some, List, [], ◌∷◌, ◌++◌, ℤ, pos, String, sub64,
  length, add64, if◌then◌else◌, insert, ltb_ℤ, leb_ℤ, int_eq, pos_part, ltb,
}
use ioflux.Trace.Types.{
  op_get, op_put, op_read, op_write, OpKind, Header, Op, Summary, Transformation,
  min_version_for_ops, transferred_bytes, min_version_for_header, is_partial_transfer,
}

pub data SplitResult : Type 0 where
  pieces_of : List Op → SplitResult
  bad_block : ℤ → SplitResult
  no_offset : OpKind → ℤ → SplitResult
  unfinished : SplitResult

-- The next piece's size: the block, or what remains if that is less.
abbrev pub piece_size : ℤ → ℤ → ℤ → ℤ
piece_size moved block covered =
    let rem = sub64 moved covered in if ltb_ℤ rem block then rem else block

abbrev pub piece : Op → ℤ → ℤ → ℤ → ℤ → Op
piece op off moved block covered = record op {
  off = some (add64 off covered);
  len = some (piece_size moved block covered);
  ret = none;
  dur = none;
}

abbrev pub cons_piece : Op → SplitResult → SplitResult
cons_piece op (pieces_of ops) = pieces_of (op ∷ ops)
cons_piece op r = r

-- `for covered := 0; covered < moved; covered += block`.
unfoldable pub split_loop : ℕ → Op → ℤ → ℤ → ℤ → ℤ → SplitResult
split_loop zero op off moved block covered =
    if ltb_ℤ covered moved then unfinished else pieces_of []
split_loop (suc fuel) op off moved block covered =
    let rest = split_loop fuel op off moved block (add64 covered block) in
    if ltb_ℤ covered moved then cons_piece (piece op off moved block covered) rest else pieces_of []

unfoldable pub split_at : Option ℤ → Op → ℤ → ℤ → SplitResult
unfolding split_loop
split_at none op moved block = no_offset op.op op.t
split_at (some off) op moved block =
    if leb_ℤ moved block
    then pieces_of (op ∷ [])
    else split_loop (pos_part moved) op off moved block (pos 0)

unfoldable pub split_moved : Option ℤ → Op → ℤ → SplitResult
unfolding split_at
split_moved none op block = pieces_of (op ∷ [])
split_moved (some moved) op block =
    if leb_ℤ moved (pos 0) then pieces_of (op ∷ []) else split_at op.off op moved block

abbrev pub is_read : OpKind → Bool
is_read op_read = true
is_read op_get = true
is_read _ = false

unfoldable pub split_one : Op → ℤ → SplitResult
unfolding split_moved
split_one op block =
    if is_read op.op then split_moved (transferred_bytes op) op block else pieces_of (op ∷ [])

abbrev pub append_pieces : SplitResult → SplitResult → SplitResult
append_pieces (pieces_of ps) (pieces_of qs) = pieces_of (ps ++ qs)
append_pieces (pieces_of ps) r = r
append_pieces r _ = r

-- The loop over the ops: the first error ends it.
unfoldable pub split_all : List Op → ℤ → SplitResult
unfolding split_one
split_all [] block = pieces_of []
split_all (op ∷ ops) block = append_pieces (split_one op block) (split_all ops block)

unfoldable pub renumber : ℕ → List Op → List Op
renumber i [] = []
renumber i (op ∷ ops) = record op { op_id = some (pos i) } ∷ renumber (suc i) ops

unfoldable pub renumbered : SplitResult → SplitResult
unfolding renumber
renumbered (pieces_of ops) = pieces_of (renumber 0 ops)
renumbered r = r

unfoldable pub split_reads : List Op → ℤ → SplitResult
unfolding split_all renumbered
split_reads ops block =
    if leb_ℤ block (pos 0) then bad_block block else renumbered (split_all ops block)

abbrev pub counts_bytes : OpKind → Bool
counts_bytes op_read = true
counts_bytes op_write = true
counts_bytes op_get = true
counts_bytes op_put = true
counts_bytes _ = false

-- `totalBytes += moved`, for an op that moves payload bytes.
abbrev pub add_bytes : ℤ → OpKind → Option ℤ → ℤ
add_bytes total kind none = total
add_bytes total kind (some moved) = if counts_bytes kind then add64 total moved else total

unfoldable pub sum_bytes : ℤ → List Op → ℤ
sum_bytes total [] = total
sum_bytes total (op ∷ ops) = sum_bytes (add_bytes total op.op (transferred_bytes op)) ops

unfoldable pub count_partials : ℕ → List Op → ℕ
count_partials n [] = n
count_partials n (op ∷ ops) = count_partials (if is_partial_transfer op then suc n else n) ops

unfoldable pub stream_set : List (ℤ × Unit {0}) → List Op → List (ℤ × Unit {0})
stream_set streams [] = streams
stream_set streams (op ∷ ops) = stream_set (insert op.s tt streams) ops

unfoldable pub recompute_summary : Summary → List Op → Summary
unfolding sum_bytes count_partials stream_set
recompute_summary s ops = record s {
  num_ops = pos (length ops);
  num_streams = pos (length (stream_set [] ops));
  total_bytes = sum_bytes (pos 0) ops;
  num_partial_reads = pos (count_partials 0 ops);
}

unfoldable pub header_version : Header → List Op → ℕ
header_version hdr ops =
    let v = min_version_for_ops ops in
    let hv = min_version_for_header hdr in if ltb v hv then hv else v

-- `block_text`, `applied` and `note` are what fmt and time make of the block and the clock.
unfoldable pub split_reads_header : Header → List Op → String → String → String → String → Header
unfolding recompute_summary header_version
split_reads_header hdr ops source_digest block_text applied note =
    let entry : Transformation = record {
      kind = "split-reads";
      params = ("block", block_text) ∷ [];
      source_digest = source_digest;
      applied_utc = applied;
      note = note;
    } in
    let listed : Header = record hdr { transformations = hdr.transformations ++ entry ∷ [] } in
    let summed : Header = record listed { summary = recompute_summary hdr.summary ops } in
    record summed { version = pos (header_version summed ops) }
