-- ===== src/Library.antt =====
-- The artifact library: where artifacts stand in the repository, what they are, and how they are read
-- and written through GitHub.
pub mod Layout
pub mod Contract
pub mod Requests
pub mod Branch
pub mod Report
pub mod Catalogue
pub mod Repository
pub mod Variation
pub mod DefinitionId
pub mod FileRepository
pub mod Search
pub mod WriteAnswers
pub mod Selection
