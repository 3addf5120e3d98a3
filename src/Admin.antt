-- ===== src/Admin.antt =====
-- The administration pages: FrontEnd/src/context, FrontEnd/src/pages/admin and
-- FrontEnd/src/components/admin.
pub mod Trim
pub mod Auth
pub mod Site
pub mod Guard
pub mod Granted
pub mod Entry
pub mod Cards
pub mod Panel
pub mod Mounted
pub mod Dashboard
pub mod Password
pub mod Domains
pub mod CandidateForm
pub mod Forms
pub mod VotingControl
mod Tests
mod PanelTests
