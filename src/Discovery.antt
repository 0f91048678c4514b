-- ===== src/Discovery.antt =====
-- internal/discovery: the part of the queue that placement looks at.
pub mod Window
pub mod Index
