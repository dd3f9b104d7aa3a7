-- ===== src/Report.antt =====
-- The fixed-format IMP reports: ncc/report_checksum.py, ncc/trouble_report.py and
-- ncc/throughput_report.py.
pub mod Checksum
pub mod Fields
pub mod Trouble
pub mod Throughput
