-- ===== src/Prelude/Runs.antt =====
-- To unfold `runs` is to unfold the operations on sets, so that a concrete run computes.
use juris_calculus.Prelude.Lists.{filter, all, any}
use juris_calculus.Prelude.Sets.{has}
use juris_calculus.Prelude.SetOps.{add, dedup, subset, set_eq, meets, diff}
use juris_calculus.Prelude.Sort.{sort}
use juris_calculus.Prelude.Lex.{codes, codes_le, list_beq, list_le}
use juris_calculus.Prelude.Assoc.{lookup, keys, concat_map, tabulate}

unfoldable pub runs : Unit {0}
unfolding filter all any has add dedup subset set_eq meets diff sort codes codes_le list_beq list_le
    lookup keys concat_map tabulate
runs = tt
