-- ===== src/Glob.antt =====
-- internal/glob/glob.go: identity globs, whose `*` also matches separators.
mod Defs
mod Decides
unfoldable pub use Defs.*
pub use Decides.*
