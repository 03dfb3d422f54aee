-- ===== src/Op/New.antt =====
-- `op_new`, statement by statement: what is held on the way, whether it succeeds or not.
pub mod Asked
pub mod Steps
pub mod States
pub mod Made
