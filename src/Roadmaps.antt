-- ===== src/Roadmaps.antt =====
-- Roadmaps: their graphs, directories, reactions and progress.
pub mod Types
pub mod Graph
pub mod Service
pub mod Directories
pub mod Views
pub mod Shape
pub mod Forest
pub mod Moves
pub mod Removals
pub mod Tree
pub mod Reactions
mod Tests
