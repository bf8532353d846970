-- ===== src/Stdio.antt =====
-- component/stdio: components that are run as commands.
pub mod Manager
pub mod Environment
