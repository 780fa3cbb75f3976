-- ===== src/Tests/Importing.antt =====
-- A descriptor opened, read and closed, and a build of two ops.
use ioflux.Prelude.{
  pos, All, List, Ordered, map, ◌∷◌, ◌≡◌, false, [], refl, some, length, insert, lookup, sub64,
  wrap64, ◌-ℤ◌,
}
use ioflux.Importer.FdTable.Handles.{
  advancing, closing, opening, IsSound, Call, perform_all, handles_apart,
}
use ioflux.Trace.Types.{capture_import, op_stat, trace_imported}
use ioflux.Importer.Builder.{assemble, add, HeaderMeta, Builder, new_builder}
use ioflux.Importer.FdTable.{close_fd, FdKey, open_fd, new_fd_table}
use ioflux.Validate.Order.{TimeLe}
use ioflux.Tests.Traces.{bare}
use ioflux.Importer.Builder.Order.{count_up, assemble-Ordered}
use ioflux.Importer.FdTable.Returned.{Spares, close-open}

abbrev log : FdKey
log = (pos 4, pos 3)

abbrev other : FdKey
other = (pos 4, pos 5)

abbrev calls : List Call
calls = advancing log (pos 10) ∷ opening other (pos 1) "b" false ∷ closing other ∷ []

handles_apart_example : IsSound (perform_all calls new_fd_table)
handles_apart_example = handles_apart calls

calls_spare : All (Spares log) calls
calls_spare = (tt, (refl, (refl, tt)))

close-open_example :
    (close_fd log (perform_all calls (open_fd log (pos 0) "a" false new_fd_table).0)).1
    ≡ some (open_fd log (pos 0) "a" false new_fd_table).1
close-open_example = close-open new_fd_table log (pos 0) "a" false calls calls_spare

abbrev two_ops : Builder
unfolding add
two_ops = add (bare op_stat (pos 90) (pos 0)) (add (bare op_stat (pos 40) (pos 0)) new_builder)

abbrev import_meta : HeaderMeta
import_meta = record {
  kind = trace_imported;
  capture_method = capture_import "strace";
  capture_limitations = "none";
  generated_by = "";
  notes = "";
  created_utc = "";
}

assemble-Ordered_example :
    Ordered TimeLe (assemble two_ops import_meta).ops
    × (map (λ op. op.op_id) (assemble two_ops import_meta).ops
        ≡ count_up 0 (length (assemble two_ops import_meta).ops))
    × ((assemble two_ops import_meta).header.summary.num_ops
        ≡ pos (length (assemble two_ops import_meta).ops))
assemble-Ordered_example = assemble-Ordered two_ops import_meta

-- The later one of two ops goes last, at its distance from the first.
two_ops_times : map (λ op. op.t) (assemble two_ops import_meta).ops ≡ pos 0 ∷ pos 50 ∷ []
unfolding assemble two_ops insert lookup sub64 wrap64 ◌-ℤ◌
two_ops_times = refl
