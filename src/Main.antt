-- ===== src/Main.antt =====
-- The two programs: what `main` of ServerMain.cpp and of ClientMain.cpp makes of its arguments, and
-- the threads that it starts.
pub mod Server
pub mod Client
pub mod Load
pub mod Boot
