-- ===== src/Lib.antt =====
-- lcool, a compiler for Cool: its front end, its table of classes, their layout,
-- its code generator, and its driver.
--
-- For each file of the command line `lcool::parse` (src/parser.cpp) pulls tokens out of the lexer
-- (src/lexer.cpp), two ahead, and builds the syntax tree of src/ast.hpp; a lexical or syntax error is
-- an exception that `lcool::parse` writes to the logger (src/logger.cpp). `dump_ast`
-- (src/parser_dump.cpp) prints a tree. The later stages keep what they know of classes, attributes
-- and methods in the objects of src/cool_program.cpp: `builtins_register` (src/builtins.cpp) enters the
-- builtin classes, and `lcool::layout` (src/layout.cpp) the classes of the program, each behind its
-- parent, with the structure, the method slots and the vtable of each. `lcool::codegen`
-- (src/codegen.cpp) checks the types of the expressions while it builds their code.
--
-- Base: names of the standard library passed on, Boolean tests and lists over the native natural
--   numbers, byte strings, integers and the 32-bit patterns that stand for them.
-- Logger: `location` and `logger_ostream`; the stream is the bytes written so far.
--   Logger/Output: sequences of calls.
-- Lexer: Lexer/Token is `token_type`, `token` and the keyword table; Lexer/Chars is the state of the
--   class `lexer` (the bytes not yet read, the location, the lookahead) with `consume_char`;
--   Lexer/Scan is every `parse_` and `scan_` function. Lexer/Result is what these return: a value, a
--   `parse_error`, or `out_of_fuel`. Lexer/Stream, Lexer/Consumes, Lexer/Scanned,
--   Lexer/Lexeme, Lexer/Forward, Lexer/Comments and Lexer/Munch hold the lemmas about them. The text of
--   a lexer is its input with line ends normalised; the lookahead is its first byte.
-- Ast: the syntax tree.
-- Parser: Parser/Monad is the state of the class `parser` (logger, lexer, two tokens) with `consume`
--   and `optional`; a do block runs statements in order and stops at an exception. Parser/Literals
--   holds the loops of `parse_integer` and `parse_string`, Parser/Expr the expressions, Parser/Top
--   classes, features, the program and `lcool::parse`. Parser/Rules, Parser/Strict, Parser/Operators,
--   Parser/Total, Parser/Ends and Parser/Returns show that all of them end.
-- Dump: the class `ast_dumper`, its stream and its indent. Dump/Prints and Dump/Escape: its lemmas.
-- Program: `cool_class`, `cool_method`, `cool_attribute` and the table of `cool_program`.
--   Program/Order: well-formed programs and the subclass order; Program/Ancestor, Program/Methods,
--   Program/Insert and Program/Update: `common_ancestor`, `lookup_method`, `insert_class` and a change of
--   a class on them.
-- Builtins: `builtins_register` over a runtime module, which is a parameter: the names that it has.
--   Builtins/Registered: what the registration needs and leaves.
-- Layout: Layout/Insertion is `insert_empty_classes` with its visits; Layout/Insertion/Trail,
--   Index, Grown, Walk, Ends and Sorted hold its lemmas: the classes in the middle of a visit are a
--   chain of children and parents. Layout/Attributes is `process_attributes`, with the lemmas of
--   Layout/Attributes/Placing, Rounds, Longer and Filling; Layout/Methods is `process_methods`,
--   with those of Layout/Methods/Entering, Slotted and Signatures; Layout/Vtable is
--   `create_vtable`; Layout/Run is `layout_cls` and `lcool::layout`. Layout/Vtable/Entries, Fits,
--   Dispatch, Laid and Kept are about calls through vtable slots and tables of classes that are
--   laid out; Builtins/Laid is about the builtin classes as such a table.
-- Codegen: Codegen/Builder is what LLVM's IRBuilder is asked for, call by call, and the state of
--   `expr_codegen`, with `local_vars_stack`; a do block ends at a failed assertion or at a null
--   pointer that is used. Codegen/Classes holds the members of `cool_class` and `cool_method`
--   that build code, with their overrides for the builtin classes; Codegen/Visit the visitors of
--   the expressions, on what the expressions inside gave, Codegen/Case that of `case`, and
--   Codegen/Expr `evaluate`; Codegen/Functions the functions of an object and the methods,
--   Codegen/Main `gen_main_func`, and Codegen/Run `codegen`. Codegen/Typing is the typing rules
--   of the language, without what the generator does not get right: an assignment to an attribute
--   stands where its value is not used or has the class of self, a `case` is over objects and its
--   branches stand with subclasses first, and the function of a method that is called takes an
--   object of the class of its slot. Codegen/Ready is the tables of classes that code is
--   generated from. Codegen/Builds, Codegen/Locals and Codegen/Scopes are rules for code that is
--   built without an error, Codegen/Members, Visitors, Dispatches, Operators, Joins, Branches,
--   Cases, Sound, Built, Methods, Objects and Whole apply them from the members of the classes up
--   to `codegen`; Codegen/Upcasts is about `upcast_to`.
-- Driver: `main`, from the parsed options on. Driver/Parses: its loop over the input files;
--   Driver/Compiles: the stages behind the parser together.
-- Tests: the theorems at concrete inputs.
--
-- A `char` is a byte below 256, in the C locale for `isspace`, `isalpha`, `isdigit` and `tolower`.
-- An `int32_t` is its pattern of 32 bits, with signed arithmetic that wraps around as compiled; line
-- and column wrap at 2 ^ 32.
--
-- A lexer's loop gets one unit of fuel more than it has bytes left, a parser's loop or a nested
-- expression one more than its weight, the bytes and tokens that it has left. Each turn takes a byte
-- or a token off, so the fuel is never used up. The recursions of the printer are on the tree, those
-- of the class table on the table, where a parent stands behind its children. A visit of
-- `insert_empty_classes` gets one unit more than there are classes not seen yet, since each visit that
-- it starts marks one; the loop of `log_class_loop` gets the number of classes in the middle of a
-- visit, which are the circle that it spells out and what led to it.
--
-- Not modelled: boost's option parser; the verifier and the writer of LLVM, and the file system,
-- which are parameters of the driver; std::sort, a parameter of the code generator. LLVM is not
-- in the repository: a call of its builder is kept with its operands and the block it goes to,
-- without the type checks that LLVM makes on values, and calling conventions are left out; where
-- the code itself reads the type of a value, it is that of the value's class. A string literal is
-- its bytes. `builtins_load_bitfile`, which has LLVM read an embedded file; the runtime
-- src/lcool_runtime.ll; ast.cpp, whose `accept` functions are the case splits of the functions on
-- `Expr`.
pub mod Base
pub mod Logger
pub mod Lexer
pub mod Ast
pub mod Parser
pub mod Dump
pub mod Program
pub mod Builtins
pub mod Layout
pub mod Codegen
pub mod Driver
pub mod Tests
