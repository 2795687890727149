-- ===== src/Disasm.antt =====
-- disasm/: the parts of the disassembler.
pub mod Sync
