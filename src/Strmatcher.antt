-- ===== src/Strmatcher.antt =====
-- common/strmatcher: matching of domain names against many patterns.
--
-- A string is the list of its bytes. `Text` has what the package uses of Go's strings, `Matchers`
-- the single patterns (matchers.go), `FullGroup` and `DomainGroup` the two indexed groups
-- (full_matcher.go, domain_matcher.go), `Group` the group that combines them (strmatcher.go).
pub mod Text
pub mod Matchers
pub mod FullGroup
pub mod DomainGroup
pub mod Group
