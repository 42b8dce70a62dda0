-- ===== src/Cli.antt =====
-- cli/saka: the commands of the program, each a function of its arguments that gives what is
-- printed on standard output, the end of the process and, for keys, the files.
pub mod Flags
pub mod Exit
pub mod Output
pub mod Search
pub mod Page
pub mod Files
pub mod Keys
pub mod Serve
pub mod Setup
pub mod Main
pub mod Declared
mod Tests
