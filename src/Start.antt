-- ===== src/Start.antt =====
-- The start of the kernel in src/kernel/core.c. `Configure` has configure_first_user_task,
-- `Checked` what it makes sure of, with the rules of `Ensures`.
pub mod Configure
pub mod Ensures
pub mod Checked
pub mod Main
pub mod Reached
mod Tests
