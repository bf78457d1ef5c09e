-- ===== src/Discovery.antt =====
-- frontend/src/features/discovery: the search for products, its session in the tab, the selection of
-- results, their import and the drafts that are made of them.
pub mod Types
pub mod Normalize
pub mod Session
pub mod Selecting
pub mod Api
pub mod View
pub mod Actions
