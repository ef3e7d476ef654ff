-- ===== src/Lib.antt =====
-- Syntactic-C: models and proofs for the cynvm virtual machine, the containers it stands on, and the
-- lexer.
--
-- The program is a virtual machine (include/vm, src/vm) with an assembler and a compiler front end
-- (src/compiler) over shared containers (src/map.c, src/tree.c, src/vector.c, ...). The assembler
-- appends encoded instructions to a code vector; VM_init_ sets a machine up for it, and VM_run fetches
-- and executes instructions until a halt, with a stack and a heap in one block of memory.
--
-- Vm.Heap models src/vm/memory.c: `heap_init`, `alloc_heap_block`, `alloc` and `free` are
-- VM_heap_init_, VM_heap_alloc_heap_block, VM_alloc and VM_free. The linked lists of descriptors are
-- lists of blocks, the chain of fresh descriptors is its length. Its children state the invariant
-- (Shape, Cover, Valid) and what allocating and releasing do (Alloc, Free, Use).
-- Vm.Value and Vm.Instr model the modes and the bit fields of include/vm/vm.h; Vm.Code models
-- src/vm/code.c (`encode`, `code_append`, `instruction_at`, `code_disassemble`) and VM_fetch of
-- src/vm/vm.c (`fetch`), Vm.Code.Decode and Vm.Code.Fetch relate them.
-- Vm.State is the machine with MEM, REG, VM_read and VM_write; Vm.Stack has VM_pushn, VM_popn and the
-- frames of call, ret and VM_returnx; Vm.Alu the operators; Vm.Exec VM_execute; Vm.Start VM_init_,
-- VM_cstring_dup_ and VM_run. Vm.Run lists how a call can end: each VM_abort, or behaviour that C
-- leaves undefined. The builtin native calls (src/vm/builtins.c) are a parameter.
-- Token models include/compiler/common/token.h and src/compiler/common/token.c: the kinds of TOKEN_LIST
-- (Token.Kinds), their texts (Token.Text), values and predicates.
-- Lexer models src/compiler/common/lexer.c: Lexer.State is the lexer with Lexer_peek, Lexer_advance and
-- the moves through the text, Lexer.Keywords the map of keywords on Map, Lexer.Escape the escape
-- sequences, Lexer.Number, Lexer.Literal and Lexer.Words the tokens of those kinds, Lexer.Tokenize
-- Lexer_tokenize, Lexer.Next Lexer_next, Lexer_reset and Lexer_init. A call returns, aborts, fails an
-- assertion, is undefined in C, or runs out of fuel (`Result`). `name`, `comment`, `number_literal`,
-- `char_literal` and `string_literal` are the functions Lexer_tokIdent, Lexer_tokComment, Lexer_tokNumber,
-- Lexer_tokChar and Lexer_tokString. Lexer.Moves follows the shape of the code; Lexer.Reached,
-- Lexer.Name, Lexer.Decimal and Lexer.Spelling have what holds of the calls. `strtod` is a parameter,
-- a field of the state, since floating point numbers are not modelled; the isdigit family is that of the
-- "C" locale. The index of a lexer is a number without wrap-around, for texts shorter than 2 ^ 32 - 3;
-- its line and column wrap. The log of a run that aborts is not kept.
-- Parser models the token parser of src/compiler/common/itp.c on Lexer.Next.
-- Asm models src/compiler/asm/asm.c: Asm.State has AssemblerCtx and the macros of
-- include/compiler/common/itp.h, with a throw of ITPException as an outcome that keeps the state;
-- Asm.Symbols the symbols and the data, Asm.Argument Assembler_parse_modes_ and
-- Assembler_parse_instruction_arg, Asm.Statement labels, instructions and variables, Asm.Assemble
-- Assembler_synchronize, the loop and the handler of Assembler_assemble, Assembler_link, whose statements
-- are those of Builder_link, and Assembler_init. Asm.Keeps goes through the code once, for any predicate
-- that every single store keeps; Asm.Bounds, Asm.Low and Asm.Throws give it predicates, Asm.Code, Asm.Ends,
-- Asm.Decoded, Asm.Labels and Asm.Faults have what follows. The bytes of a reserved block are a parameter, since nothing writes
-- them. Vm.Opcodes models VM_get_opcode_for_instr_, whose tree is the list of its entries.
-- Vm.Builder models src/vm/builder.c: symbols, patches, data and Builder_link, whose loop over the
-- instructions is `link_loop`; the trees are the lists of their entries, and the code is linked into an
-- empty vector. Vm.Builder.Link has what a round does, Vm.Builder.Distance the
-- offsets that the loop writes.
-- Utf8 models Stream_putUtf8 (src/stream.c), Lexer_clz and Lexer_readRune (src/compiler/common/lexer.c).
-- Tree models insertion and look-up of src/tree.c; a path of frames stands for the parent pointers, and
-- the comparison is a parameter, with the laws of a strict weak order where a theorem needs them. The
-- functions of tree.c leave the data of a new node empty (`none`), and the macros of include/tree.h store
-- the value; Tree.Store relates the two. Tree.Add is about RbTree_find_or_add, Tree.Insert about
-- RbTree_add, and Tree.Walk has the walk in both directions.
-- Map models src/map.c, with its iterator in Map.Iterate; whether its allocations succeed is an
-- argument. Source models the ranges of src/compiler/common/source.c, Vm.Names the register names of
-- src/vm/utils.c.
-- Prelude and Word hold what the modules share: tests on native numbers, lists, and machine words.
--
-- Machine words are native numbers with their wrap-around written out; a 64-bit value is its bit
-- pattern, and bytes are little endian.
-- The loop of VM_run runs on fuel, since a program need not halt. Three loops that always end run on
-- fuel as well: the disassembler, where each round moves by at least a byte, so the length of the code
-- is enough; the search for the end of a string in memory, where the rest of the memory is enough; and
-- the search for the next bucket of a map, where the number of buckets is enough.
-- The loops of the lexer that read until a character run on fuel, one more than the length of the text:
-- a round takes a character, and EOF ends it. Lexer_next calls itself on the same fuel, since a call
-- that makes no token takes a character. The loop of Lexer_tokChar for a character of 0x80 and more has
-- the same fuel, though it does not end where no quote follows. The loop of Assembler_assemble
-- and those in it take a token each round, and a token takes a character, but for the one that ends a
-- string expression and the last: twice the length of the text and five is enough. All other loops are
-- structural recursion.
--
-- Not modelled: command line arguments, vectors and arenas, tree erasure, logging, input and output, and the front end, which the repository has not
-- finished.
pub mod Asm
pub mod Lexer
pub mod Map
pub mod Parser
pub mod Prelude
pub mod Source
pub mod Token
pub mod Tree
pub mod Utf8
pub mod Vm
pub mod Word
