-- ===== src/RouteMatch.antt =====
-- internal/routematch/routematch.go: the segment-wise route matcher. Methods are compared by ASCII
-- case folding, and white space is ASCII's.
mod Defs
mod Laws
unfoldable pub use Defs.*
pub use Laws.*
