-- ===== src/Lib.antt =====
-- The verdi-go repository reads a Go service's call graph in two halves: flowmap extracts the graph and
-- labels its edges, groundwork answers questions about it: what reaches what, which rule is broken, and
-- where the graph is blind. This library models the deterministic core that both halves share.
--
-- Parts, and where each is modelled:
-- - Vocabulary: MatchPrefix, isIdentByte and MatchExceptionSide of internal/groundwork/policy/policy.go
--   (Matcher), and the closed vocabularies of internal/sqlverb, internal/effectkind and
--   internal/boundarylabel (Verbs).
-- - Glob: Match of internal/glob/glob.go (Defs), decided against an inductive specification (Decides).
-- - RouteMatch: Match, splitRoute and the segment alignment of internal/routematch/routematch.go.
-- - Graph: the records, edge predicates and load checks of internal/groundwork/graph/graph.go (Types,
--   Validation), the index of internal/groundwork/graph/index.go (Index, Surface), its adjacency
--   (Adjacency), its walk (Walk), what it says of reachability (Reachability) and what of the boundary
--   (Disclosure).
-- - Facts: internal/groundwork/facts. types.go is Types, match.go is Match, reach.go is Traversal (search
--   and paths), Frontier (effects and blind witnesses) and Reach (the evaluation), passthrough.go is
--   PassThrough, obligation.go is Obligation, concurrent.go is Concurrent. Tree, Trails and Cone show that the search tree holds
--   exactly the trails of calls; Visibility and Blindness say when a cone hides nothing; ReachSearch,
--   ReachVerdict, ReachLaws and ReachAnswers lead from one source to the answer; ObligationLaws,
--   PassThroughLaws, PassThroughAnswers, ConcurrentLaws and ConcurrentAnswers do the same for the other
--   families, and PassThroughGuard and ConcurrentClean for their proofs, by FrontierLaws.
-- - TierMap: Classify of internal/tiermap/tiermap.go with Features of internal/model/model.go and the
--   tier layer of internal/config/config.go.
-- - Policy: internal/groundwork/policy/policy.go. Types is the schema with its allow-lists and ratchets,
--   Validate the checks of Validate with the error they return, Layers is LayerOf, LayerRank and
--   LayerNames, Brokers is MergeBrokers; Validity, LayerLaws and BrokerLaws say what these promise.
-- - Fitness: internal/groundwork/fitness. Findings is result.go, Names is fqn.go, Messages and Reach are
--   reach.go, PassThrough is passthrough.go, Concurrent is concurrent.go, obligations.go and coupling.go,
--   Layering is layering.go, Effects and Budget are budget.go, Check is fitness.go, Liveness is
--   liveness.go and Exceptions is exceptions.go. Gate is about the findings; Breaks, ReachLaws,
--   PassThroughLaws, ConcurrentLaws, LayeringLaws (with Descent and DescentBound), BudgetLaws and WriteBudget say when
--   a part brings no violation, and Upheld puts them together; WriteSurface and EffectLaws are about what
--   a route writes, ExceptionLaws and LivenessLaws about the audits.
-- - Review: RouteIODeltas and newWriteTargets of internal/groundwork/review/routeio.go with edgeSet and
--   diffStringSets of delta.go (RouteIo), what a row says of a lost write (LostWrites) and which targets are
--   new (WriteTargets). It compares two of Fitness's route surfaces, or two graphs' labels.
-- - NameQuery: internal/fqnres/fqnres.go, the query lists, the resolver and the report lines (Defs), what
--   the fragments of a list are (Pieces) and what the outcomes of a split say (Laws).
-- - Prelude: tests, lists, equality, texts, maps, sorting, messages and validation. sorted_keys is SortedKeys of
--   internal/groundwork/setutil/setutil.go. Tests applies the theorems to small inputs.
--
-- Facts reads an Index that new_index builds from a Graph, binds selectors with the Matcher, walks with
-- the index's adjacency, and sorts what it lists. Fitness asks the facts for each rule of a Policy and
-- turns the answers into findings. TierMap calls Glob.
--
-- Representation. A string is its list of bytes; white space and case folding are ASCII's. A Go map is an
-- association list whose order no result keeps, since each use sorts the keys or looks one up; a set is a
-- list asked by membership. Lines, counts and the tiers of a graph's edges are natural numbers, the tiers of a
-- configuration and the budget are integers. A nil index is none. The
-- decimal form of an index, which package fmt makes, is a parameter of TierMap, and the verbs %d and %q
-- are the parameter Format of the checks and of the report lines of NameQuery, whose resolver takes what
-- package regexp compiles as a parameter too. The arrow and the dash of the messages are one code point each.
-- A pointer of a policy is an Option, its broker map a list in the order in which Go happens to visit it.
-- A switch on a state has no default arm, since the states of the model are closed. sort.Slice and
-- sort.SliceStable are one stable insertion sort: the unstable one is used where ties are equal records.
--
-- Fuel. The glob loop runs on (length s + 1) * (length pattern + 1), the walk and the level search on the
-- number of edges, since each step but the first enters a new target of an edge, and path
-- reconstruction on the size of the parent map. The descent of the layering runs on the number of callees,
-- each function's counted once. The theorems on match, reachable, the cone, the
-- reconstructed paths and the effective callees show that these are enough.
--
-- Not modelled: the JSON decoders in front of Load, the caveats and notes of a graph, the proposals of
-- internal/groundwork/fitness/propose.go, the rest of internal/groundwork/review, claims and reports above
-- the facts, the static extractor on golang.org/x/tools, trace canonicalisation and impeachment, and all
-- input and output.
mod Prelude
pub mod Vocabulary
pub mod Glob
pub mod RouteMatch
pub mod Graph
pub mod Facts
pub mod NameQuery
pub mod Policy
pub mod Review
pub mod TierMap
pub mod Fitness
pub mod Tests
