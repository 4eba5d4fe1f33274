-- ===== src/Scanners/BlueTeam.antt =====
-- blue_team_agent.py: which log files it reads, what it finds in them, and its checks of source code.
pub mod Discovery
pub mod Logs
pub mod Thresholds
pub mod Checks
