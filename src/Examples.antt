-- ===== src/Examples.antt =====
-- Concrete runs of the code, on which the theorems are tried: a small emulator, and a broker with
-- two clients that watch one pane.
mod Runs
mod Sessions
mod Screens
mod Marked
mod Attended
mod Named
mod Notified
mod Paired
mod Moved
mod Supervised
