-- ===== src/Lib.antt =====
-- fidl: the wire format of the Go bindings, and of the compiler the lexer, the parser of types and values, the
-- layout of structs, and the check that types can be serialized at all.
--
-- The program has two halves. The compiler reads interface files and writes code: its first stage
-- is the lexer, compiler/src/fidl/compiler/lexer; the parser, compiler/src/fidl/compiler/parser, reads its
-- tokens; behind the parser the compiler checks that every type has
-- instances without a cycle, compiler/src/fidl/compiler/utils/wellfounded_graphs.go; and its last stage
-- before the generators gives struct fields their ordinals and computes where they lie and since which version,
-- compiler/src/fidl/compiler/core/user_defined_types.go and computed_data.go. The code it writes
-- uses a run-time library, in Go go/src/fidl/bindings, which encodes structs into messages and
-- decodes messages into structs: an encoder and a decoder that keep a stack of open blocks, and
-- message headers around them.
--
-- Prelude: the names that all files share; lists measured by native numbers (Prelude/Lists), bytes and
--   little-endian words (Prelude/Bytes), bits (Prelude/Bits), integers (Prelude/Int), and Go methods
--   that change their receiver and return an error (Prelude/Go): the outcome is ok, a returned error
--   with the receiver as it then is, or a run-time panic.
-- Bindings/Util: go/src/fidl/bindings/util.go and the constants and errors of message.go.
-- Bindings/State: encodingState of encoder.go, with the capacity check
--   (ensureElementBitSizeAndCapacity is `ensure`).
-- Bindings/Encoder, Bindings/Encoder/Write: encoder.go, a definition per method in the spelling of
--   this library (StartArray is `start_array`). Encoder/Valid and its children hold the invariant, one
--   lemma per method, and the sequences of calls (`Call`, `run_call`, `Reach`).
-- Bindings/Decoder, Bindings/Decoder/Read: decoder.go in the same way; Decoder/Sound and its children
--   hold its invariant, its sequences of calls, and the words that are read after bools (AfterBool).
-- Bindings/Message: message.go; Message/Header has the bytes of a header, Message/RoundTrip and
--   Message/Total are about EncodeMessage and ParseMessage.
-- Bindings/Words: the encoder and the decoder together, on one word. Bindings/AfterBool: positions
--   inside a byte.
-- Lexer/Tokens, Lexer/Runes, Lexer/Machine, Lexer/States: tokens.go and lexer.go, a definition per
--   function; a state function is a constructor of `State`, and `step` is what it runs. Lexer/Moves
--   shows that what the three methods keep all states keep; Lexer/Left, Lexer/Below and Lexer/Ends
--   are about termination, Lexer/Positions about where tokens lie, Lexer/Longest about where they end.
-- Lexer/Stream: token_stream.go, the stream over the lexer's channel and the filtered stream;
--   Stream/Filter relates it to the filtering of a list.
-- Types: type references of compiler/src/fidl/compiler/core/types.go, with their names and the marks that the
--   parser sets. A reference to a user's type is a pointer, the index in the parser's list of references.
-- Scopes: compiler/src/fidl/compiler/core/scopes.go. A scope with its ancestors is a list, the root last; the
--   map of declared objects is a list of entries. Registration and LookupObject are in Scopes, Scopes/Names
--   follows a name through the chain. A filter of LookupObject is a record of its four bits.
-- Parser: the state and the token helpers of compiler/src/fidl/compiler/parser/parser.go and parsing.go. A method
--   takes the parser and gives a value and the parser, whose error is part of it, or a panic. The input is
--   what the filtered stream of Lexer/Stream still gives. Parser/Types has the methods for types (parseType is
--   `parse_type`), Parser/Integers and Parser/Literals those for literals and values, with the assignment of
--   literals (Literals/Compatible). Parser/Grammar has the grammar of types as judgements on tokens,
--   and says where it is not that of the comments.
--   Parser/Steps has what one token does; Types/Sound and the modules named for the parts of a type show that
--   what is read is of the grammar, Types/Complete, CompleteMaps, CompleteNames and Trees that all of the
--   grammar is read, and Types/Correct puts the two together. Integers/Values and Integers/Sizes are about
--   Go's ParseInt and ParseUint, Literals/Numbers and Literals/Decimals about the types of literals,
--   Literals/Initializers about enum values.
-- Structs: the packing of struct fields in compiler/src/fidl/compiler/core/computed_data.go
--   (computeFieldOffsets); the list of fields in packing order is returned with their positions set.
--   Structs/Fits and Structs/Packing are about overlaps and alignment, Structs/Same about the fields themselves.
-- Ordinals: ComputeFieldOrdinals, ComputeMethodOrdinals and ComputeFieldTags of
--   compiler/src/fidl/compiler/core/user_defined_types.go. Ordinals/Slots is about the slots that the first
--   fills; Entries, Numbered, Sorted and Ordered are about the other two, which keep a map by ordinal, here the
--   list of its entries, and sort the ordinals, here by insertion.
-- Versions: computeVersionInfo and computeInterfaceVersion of computed_data.go, with minVersionAttribute of
--   user_defined_types.go and the integer values of literals of types.go; Versions/Info, Versions/Loop and
--   Versions/Yield are about the version info, Versions/Interface about the versions of interfaces. Of a
--   field's type the model has what is asked of it: its size, and whether a version other than 0 may have it.
-- WellFounded: compiler/src/fidl/compiler/utils/wellfounded_graphs.go. A node is a number and the graph a
--   function of it, as Node's methods are the caller's; the cycleFinder, the fields of its holders and what
--   the nodes remember are the record `Finder`; the order in which Go ranges over a set is a parameter.
--   WellFounded has phases 1 and 2, WellFounded/Cycle phase 3 and newCycleDescription, WellFounded/Check the
--   three together and the loop of DetectIllFoundedTypes. Sets are lists without repetitions
--   (WellFounded/Sets). Spec has the inductive definition of well-founded nodes and the invariant of phase 1,
--   which Child, Visit, Scan, Finish, Close and Phase1 follow through the recursion; Loop, Phase2 and Rounds are
--   about phase 2, Bounds about its end; Reach, Start and End put the two together; Describe, Walk and
--   Report are about phase 3; Checked and Correct about the whole.
--
-- Numbers. Sizes and offsets that the source keeps in an `int` are numbers without a bound; uint32 and
-- uint64 arithmetic has its wrap-around written out. A handle is the number the kernel gives it. The
-- validity test of a handle and the bits of a float, which other code computes, are parameters, and so are
-- the errors of strconv.ParseFloat and the range of a float32.
--
-- Fuel. The lexer's main loop has 5 * length + 5 steps, for each step consumes a byte or moves to a
-- state of a lower rank; its inner loops have length + 1 rounds, for each consumes a byte; the loop of
-- the filtered stream has a round per token that is left. The lemmas are in Lexer/Left,
-- Lexer/Ends and Lexer/Stream/Filter. Phases 1 and 3 of the check of types recurse as deep as there are
-- nodes, for each call marks a node (`room` in WellFounded/Visit counts the others); phase 2 has as many
-- rounds as its two sets have nodes, for each takes one out (WellFounded/Bounds). parseType has fuel for the
-- nesting of types, and more than the number of tokens is enough; the loop over an identifier has a round
-- per token that is left.
--
-- Not modelled: the sorting of map keys, texts of error messages, message transport over channels
-- (async_waiter.go, connector.go, router.go, stub.go), and of the compiler the parser's declarations and its
-- debug tree, the object graph with its edges and names, the resolution of references, the integers of enum
-- values, the formatter and the generators.
pub mod Prelude
pub mod Bindings
pub mod Lexer
pub mod Structs
pub mod Ordinals
pub mod WellFounded
pub mod Versions
pub mod Types
pub mod Parser
pub mod Scopes
