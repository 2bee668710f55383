-- ===== src/Children.antt =====
-- The programs that fork and wait for their children: css_echo.cpp, css.cpp, sigaction_waitpidS.cpp, test_fork_and_waitpid.cpp.
pub mod Reaping
pub mod Signals
pub mod Servers
pub mod Forks
