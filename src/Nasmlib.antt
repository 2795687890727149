-- ===== src/Nasmlib.antt =====
-- nasmlib/ and the other library routines of the assembler: one child for each source file.
pub mod Crc
pub mod Hashtbl
pub mod Ilog2
pub mod Numstr
pub mod Raa
pub mod Rbtree
pub mod Saa
pub mod Strlist
pub mod Rdstrnum
pub mod Readnum
