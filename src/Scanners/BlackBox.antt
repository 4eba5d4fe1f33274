-- ===== src/Scanners/BlackBox.antt =====
-- black_box_agent.py
pub mod Crawl
pub mod Probes
pub mod Run
pub mod Scope
