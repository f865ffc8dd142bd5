-- ===== src/Cli.antt =====
-- src/cli: the commands of the terminal, as calls of the interface and what is printed of the answers.
pub mod Args
pub mod Display
pub mod Run
