-- ===== src/Lib.antt =====
-- Partio: a build system whose build files are programs in YACS, with the front end of a compiler for
-- C-like sources. This library models the front end with its tables and its memory, and the state and
-- decisions of the interpreter of build files.
--
-- The parts, in the order in which a source file passes through them:
--   SourceManager   src/SourceManager.hpp, src/SourceBuffer.hpp: where a file is looked for and the
--                   table of loaded files. `std::filesystem` and the reading of a file are the record
--                   `FileSystem`, a parameter.
--   StringPool      src/StringPool.hpp. What its clients see is an interface of `intern` and
--                   `get_string` with the law that an id leads back to its text. Behind it stand the
--                   chunks and their bytes (`Memory`), the table of slots and all operations
--                   (`Operations`) in 32 and 64 bits; `Start` fills the interface. A chunk is its
--                   bytes by their offset, and `memcpy` of a `uint32_t` stores the lowest byte first.
--   Arena           src/Arena.hpp, src/Arena.cpp: pieces of chunks, with addresses and sizes in 64 bits.
--                   The address of a new chunk is an argument.
--   Keywords        src/BinaryKeywordTable.hpp: `raw_keywords`, the sorting and the binary search.
--                   `std::sort` is an insertion sort and `std::lower_bound` is written out.
--   PerfectKeywords src/PerfectKeywordTable.hpp: the table whose seed is searched for, in 32 bits. The
--                   search takes its rounds from outside.
--   Token           src/Token.hpp: the kinds, with their numbers, and the record of a token.
--   Lexer           src/Lexer.hpp: the bytes between `cursor` and `end` are a list, and each method is
--                   a function of the state. Lines, columns and lengths wrap at 2 ^ 32.
--   Preprocessor    src/Preprocessor.hpp: the stack of lexers, `push_file`, `next_token` (here `next`),
--                   `handle_directive` and `handle_include`.
--   AstNodes        src/ASTNodes.hpp: the nodes; a pointer into the arena is the node it points to.
--   Parser          src/Parser.hpp: recursive descent over the tokens that the stream still gives.
--   TypeRegistry    src/TypeRegistry.hpp: the table of types and the layout of structures in 32-bit
--                   arithmetic, `&` and `~` included.
--
-- The other half reads the build files:
--   Values          src/Value.hpp, src/Value.cpp: the variant, `+=` and `to_string`, with the operators
--                   of src/Interpreter.cpp on values. Pointers are numbers.
--   Targets         src/ProjectContext.hpp: a target, `set_property` and `get_property`.
--   Interpreter     src/Interpreter.hpp, src/Interpreter.cpp: scopes and variables (`Variables`), blocks
--                   of targets and namespaces (`Blocks`), loops (`Loops`), `if` (`Branches`), literals,
--                   references and indices (`Expressions`), the binding of arguments (`Arguments`),
--                   functions and their calls (`Calls`), with the projects that pointers show. The
--                   statements of a block are a function of the state, a parameter. The map of plans
--                   belongs to the state, since the visit of an imported file writes it.
--   Cycles          src/Interpreter.cpp, `hasCycles`, over a store of targets.
--   Plans           src/Interpreter.cpp, `buildExecutionPlans`, and src/Builder.cpp, `build`.
--   ProjectFiles    src/Interpreter.cpp, the constructor and `visitProject_file`; src/main.cpp, what is
--                   built after the visit.
--
-- Fuel. A loop takes a round of fuel for each pass. `parse_translation_unit` gives itself one round more
-- than there are tokens, since each pass of its loops takes a token; `lookup` one for each entry of
-- the table, since each pass halves the range; `has_cycles` one more than there are targets, since
-- each call below another marks one; the searches of the pool of strings one for each slot, since
-- there is always a free one. The lexer takes its fuel from outside, and `hang` says that it is used up.
--
-- Not modelled: the arguments of the program (src/main.cpp), the second class of
-- src/PerfectKeywordTable.hpp, which nothing uses, the parser of YACS that ANTLR generates,
-- the walk of the interpreter over its trees, imports, `exec` and the functions that are built in, which
-- are calls of the system, the loop of `Builder::compile_target`, and the release of memory.
--
-- A `none` stands for a read out of range or an id that a vector does not have. Child modules hold the
-- proofs; `Examples` runs the definitions on small inputs.
pub mod Prelude
pub mod TypeRegistry
pub mod Token
pub mod Keywords
pub mod PerfectKeywords
pub mod StringPool
pub mod Arena
pub mod Lexer
pub mod AstNodes
pub mod Parser
pub mod SourceManager
pub mod Preprocessor
pub mod Values
pub mod Targets
pub mod Interpreter
pub mod Cycles
pub mod Plans
pub mod ProjectFiles
mod Examples
