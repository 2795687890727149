-- ===== src/Lib.antt =====
-- The Netwide Assembler: its expression evaluator and the library routines under it.
--
-- An operand, an address or a directive's argument is an expression. The scanner (asm/stdscan.c, or
-- the preprocessor's) delivers tokens, and asm/eval.c computes as it parses them: the result is a
-- vector of multiples of components, which are registers, segment bases, the number 1 and an unknown
-- quantity. The parser and the encoder then ask the tests of asm/exprlib.c what the vector is.
--
--   Word        64-bit integers as bit patterns; the build asks for wrapping arithmetic (-fwrapv)
--               (and Signed: the signed numbers that patterns stand for)
--   Nasmlib     include/ilog2.h, asm/rdstrnum.c, nasmlib/readnum.c, nasmlib/numstr.c, nasmlib/crc64.c,
--               nasmlib/crc32b.c, and the containers: nasmlib/rbtree.c, nasmlib/raa.c, nasmlib/saa.c,
--               nasmlib/hashtbl.c, nasmlib/strlist.c
--   Disasm      disasm/sync.c
--   Location    asm/nasm.c: switch_segment, set_curr_offs, increment_offset
--   Labels      asm/labels.c: the table of symbols (Labels), declarations and the names with prefixes
--               (Declare), and definitions (Define)
--   Strfunc     asm/strfunc.c
--   Quote       asm/quote.c: nasm_quote, nasm_skip_string, nasm_unquote
--   Expr        asm/exprlib.c, with the types of include/nasm.h: the vectors and the tests on them
--   Vector      asm/eval.c: add_vectors, scalar_mult, scalarvect, unknown_expr
--   Eval        asm/eval.c: the state of the evaluator (State), what the loops do with their operands
--               (Operators), the operands (Operand), the loops of rexp0 to expr5 (Parser), and cexpr,
--               expr6 and evaluate (Evaluate)
--   Arithmetic  trees of numbers and operators, their values (stated apart from the functions of
--               the evaluator) and their text, to which the evaluator
--               is held
--   Examples    the theorems on concrete input
--
-- Labels and object files keep their tables in the containers of nasmlib: trees that are searched by
-- address (rbtree), arrays indexed by numbers that may be far apart (raa), and byte sequences that
-- grow as sections are written (saa). Labels are found by name in the hash table of nasmlib/hashtbl.c,
-- as are the strings of a unique list (strlist). The disassembler keeps the places where it must
-- start an instruction anew in the heap of disasm/sync.c. Where these functions index blocks that are
-- not allocated, or assert what does not hold, the model returns `none`.
--
-- The functions of asm/eval.c share static variables and may return NULL after a message. Here they
-- are functions from a State to an Outcome: a result and a state, NULL, undefined behaviour of C (a
-- shift by 64 bits or more, INT64_MIN divided by -1), or `stuck`, which stands for no behaviour of the
-- code but for fuel that has run out.
--
-- asm/labels.c keeps its variables in the record Symbols; the messages it gives and the symbols it
-- passes to the output format are lists there. `herelabel` of the output format is a function in its
-- Env. The evaluator still takes `lookup_label` from its own Env.
--
-- Fuel bounds the rounds of a loop and the depth of the recursion. `evaluate` starts with three more
-- than there are tokens: each round of a loop and each nested call that reads on takes a
-- token.
--
-- The tokens are a list that the scanner has read ahead; `lookup_label`, the output format's
-- `segbase`, `float_const` and `string_transform` are functions in Env, as are the limit on the calls
-- of `expr6` and the location. EXPR_REG_END, which the build generates, is a parameter. The storage of
-- temporary vectors is not modelled: a vector is a list.
--
-- The loop of `nasm_unquote_anystr`, which may go back over a sequence that proves invalid, has four
-- rounds for each byte of the text and four more. The loops of saa.c and sync.c have as many rounds as
-- there are bytes or points, and two more for writing, where the first round may find a block full and
-- write nothing. A buffer of LEB128 has the 16 bytes of the source. A sparse array takes at most five
-- layers more: 11 bits each, of 63. A loop over a hash table has as many rounds as there are slots, for
-- a search, and one more to visit all nodes.
--
-- Not modelled: the preprocessor, the parser of lines, the encoder, floating-point constants,
-- the output formats, the disassembler but for its synchronisation points, and what gives
-- memory back; md5c.c and zlib are copies of other projects' code. The sizes of saa.c, hashtbl.c
-- and strlist.c are not cut to 64 bits.
pub mod Prelude
pub mod Word
pub mod Nasmlib
pub mod Expr
pub mod Vector
pub mod Eval
pub mod Arithmetic
pub mod Strfunc
pub mod Quote
pub mod Disasm
pub mod Location
pub mod Labels
pub mod Examples
