-- ===== src/Lib.antt =====
-- Verification library for the legal-reasoning kernel of juris-calculus.
--
-- The kernel decides which legal arguments stand. Typed attacks between arguments are resolved into
-- defeats under an admitted policy and priority relations; the defeat graph is evaluated under one of
-- Dung's semantics, grounded by a fixed point and the other three by a bounded enumeration; an
-- independent checker recomputes the grounded labels from the serialized graph. Beside it, a Horn
-- subject is closed by a full scan, and extended through add-only deltas by a worklist. A query reads
-- the status of a claim off an evaluated family, and the deadline engine computes procedural
-- deadlines from rules, event dates and a business calendar.
--
--   Prelude: shared names, Boolean tests, and finite sets as lists. `Key` is the interface of an
--     identifier (equality and order, filled for strings, pairs and lists); `dedup` makes a set of a
--     list, `sort` orders it, `set_eq` compares two sets. A raised error is the `err` of `Result`.
--   Dung: attack, defence and the four kinds of extension, independent of the code.
--   Grounded: `grounded_extension` of compiler_core/argumentation.py. The attacker index is the
--     function `attackers_of`; `iterate` is the while loop, on fuel, with `iteration_limit` rounds: the
--     bound of the caller, at least one, or one more than there are distinct arguments.
--   Reasons: `label_reasons`, `find_cycles` and, in Reasons.Trace, `proof_trace`, same file, over given
--     strongly connected components.
--   Checker: compiler_core/independent_grounded_checker.py, `_recompute_grounded` and
--     `check_grounded`. The decoded JSON value, or its absence, is an argument.
--   Profile: `evaluate_profile_v5` of compiler_core/argumentation.py with its budgets. `sorted` on a
--     list of frozensets orders by inclusion, which is no total order: it is the parameter `Arrange`,
--     of which only the members are known.
--   Verifier: `verify_profile_family_v5` and its helpers, same file: a claimed family is tested set by
--     set from the definitions, through the attacker adjacency, and an exact claim is compared with
--     an independent enumeration. The loop of the grounded set has its own bound, one round more
--     than there are arguments.
--   Defeats: `resolve_defeats_v5`, the priority closure and the audit decisions, same file.
--   Horn: compiler_core/incremental.py, with `Horn.Changes` for its last two functions. `closure_loop`
--     runs on the fuel `length rules + 1`, since every round but the last derives the head of a rule
--     anew; `work_loop` runs on fuel for every new rule and every atom that can enter the queue. The
--     digest function is the parameter `Digest`.
--   Completion: compiler_core/completion_status.py, the gate on incomplete stages and the trust label.
--   Query: compiler_core/query_semantics.py, `evaluate_query_v5` over the evaluation of `Profile`, with
--     its gates, and the branch keys. `Query.Branches` says without the code when a branch accepts or
--     refutes a claim.
--   Calendar: the calendar primitives of compiler_core/deadlines.py. A date is its day number; year,
--     month and day are computed from it and back. The two loops over days run on the fuel
--     `coverage_end + 1` and `coverage_end + 2`: a day after the coverage ends them with an error.
--   Companions: `order_deadline_rules`, same file. The recursion has fuel for two calls more than the
--     registry has keys, since a key on the path down is refused.
--   Deadline: `compute_deadline`, same file, on a rule that is resolved: Deadline.Period for the start,
--     the raw expiry and the roll, Deadline.Adjust for suspensions and interruptions, and
--     Deadline.Compute for the branches, the coverage and the companion limits.
--   Assurance: compiler_core/assurance.py, `combine_assurance_v5` and its merges, with the envelope's
--     validation from compiler_core/contracts.py.
--   Taint: compiler_core/taint.py, the labels that a derived fact inherits.
--   Examples: runs of the definitions, and the theorems at concrete inputs.
--
-- Sets are lists: a definition that iterates over a set iterates over the list, and statements about
-- results are up to membership. Error texts are constructors, without their detail strings, but for
-- the fields that a caller reads.
--
-- Not modelled: the wire contracts and their validation (compiler_core/contracts.py) but for the
-- assurance envelope's, storage, transport, the MCP service and the solver backends, which are input
-- and output; JSON and SHA-256. The argument graph of version 4, the decomposition into strongly
-- connected components and pricing are outside it too. Of the deadlines, the resolution of a rule's
-- decision cases, the reading of texts and of the registry's files, the time of day and the receipts
-- are left out.

pub mod Prelude
pub mod Dung
pub mod Grounded
pub mod Checker
pub mod Profile
pub mod Defeats
pub mod Verifier
pub mod Horn
pub mod Query
pub mod Calendar
pub mod Companions
pub mod Deadline
pub mod Completion
pub mod Examples
pub mod Assurance
pub mod Taint
pub mod Reasons
