-- ===== src/Diff.antt =====
-- `Diff` of src/diff.rs. `Diff::full_diff`, which reads a `StateMap`, is in `StateMap.Defs`.
mod Defs
mod Merge
pub use Defs.{Diff, u64_max}
unfoldable pub use Defs.{
  new, empty, get_diff, is_full_update, is_empty, compress, merge_loop, merge,
}
pub use Merge.{
  writes-append, replay-append, lookup-replay, compress_lem, ids-merge, lookup-extend-merge,
  merge-Distinct, lookup-replay_nil,
}
unfoldable pub use Merge.{writes, replay, lowest, highest}
