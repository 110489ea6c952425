-- ===== src/Graph.antt =====
-- graph.c and graph.h: the tree of segments is compiled into an array of 16-bit cells.
pub mod Cells
pub mod Stats
pub mod Compile
pub mod Layout
pub mod Depth
pub mod Extent
pub mod Frame
pub mod Keys
pub mod Retain
pub mod Edges
pub mod Follow
pub mod Represents
pub mod Word
pub mod Literals
pub mod Correct
pub mod Step
