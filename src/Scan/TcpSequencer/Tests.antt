-- ===== src/Scan/TcpSequencer/Tests.antt =====
-- Runs of the sequencer.
