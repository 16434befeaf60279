-- ===== src/Vocabulary.antt =====
-- The closed vocabularies that producer and judge share, and the one selector matcher:
-- internal/sqlverb/sqlverb.go, internal/effectkind/effectkind.go,
-- internal/boundarylabel/boundarylabel.go, and MatchPrefix, MatchExceptionSide of
-- internal/groundwork/policy/policy.go. The laws are in the child modules.
pub mod Matcher
pub mod Verbs
