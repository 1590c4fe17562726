-- ===== src/Lib.antt =====
-- rFSM, an interpreter of SCXML state machines (https://www.w3.org/TR/scxml/) in Rust.
--
-- The program. `src/fsm.rs` holds the collections of the SCXML algorithm (`List`, `OrderedSet`,
-- `Queue`, `HashTable`), the data of a machine (`Fsm`, `State`, `Transition`) and the algorithm
-- itself: an event selects transitions, conflicting ones are removed, the states below the domains
-- of the others are left, and their targets are entered. `src/serializer` writes machines to a
-- compact byte format and reads them back; its lower half is a protocol of typed values.
-- `src/expression_engine` is a small language for conditions; its lexer gives the tokens, which the
-- parser folds on a stack.
--
-- The files, with the code that they model.
--   Prelude           tests on numbers, lists, membership of ids, and `Run`: a result, a panic of
--                     the Rust code, or fuel that ran out
--   Collections       `src/fsm.rs`, lines 190 to 600: SeqList is `List`, OrderedSet, Queue,
--                     HashTable; Sort is the standard library's stable sort
--   Fsm/Types         the data of a machine, the orders by document id, and the access by id, which
--                     panics on a missing id as `unwrap` does
--   Fsm/Tree          `isDescendant`, `getProperAncestors` and the predicates on states;
--                     Tree/Chain is the specification: a state with its line of parents;
--                     Tree/Ancestry relates the walks to the `parent` fields
--   Fsm/Domain        `findLCCA`, `getEffectiveTargetStates`, `getTransitionDomain`
--                     (Domain/Resolved says what a target stands for)
--   Fsm/WellFormed    the machines that the theorems are about
--   Fsm/Exit          `computeExitSet`
--   Fsm/Conflicts     `removeConflictingTransitions`
--   Fsm/Entry         `computeEntrySet`, `addDescendantStatesToEnter`, `addAncestorStatesToEnter`
--                     (Entry/Enterable: machines that can be entered; Entry/Steps, Entry/Returns,
--                     Entry/Computes: the procedures return and enter what they should)
--   Fsm/Selection     `nameMatch`, `conditionMatch`, `selectTransitions`,
--                     `selectEventlessTransitions`
--   Fsm/Final         `isInFinalState`
--   Fsm/Interpreter   `GlobalData`, `Event`, and the steps on them: Leaving is `exitStates`, Arriving
--                     `enterStates`, Microstep `microstep` and `executeTransitionContent`, Loop
--                     `mainEventLoop`, Finish `exitInterpreter` and `returnDoneEvent`; Validity is
--                     the invariant of a session, Frames what content leaves as it is
--   Protocol/Writer   `src/serializer/default_protocol_writer.rs`, and of
--                     `src/serializer/protocol_writer.rs` the method with a body; Writer/Bytes is
--                     the format as lists of bytes
--   Protocol/Reader   `src/serializer/default_protocol_reader.rs`, and of
--                     `src/serializer/protocol_reader.rs` the methods with a body
--   Protocol/RoundTrip, Protocol/Widths, Protocol/Truncation
--                     both together: input that is whole, reads of other widths, and input that ends
--                     too early (Reader/Cuts)
--   Expression/Characters, Expression/Lexer
--                     `src/expression_engine/lexer.rs`; Lexer/Tokens is termination, Lexer/Strings
--                     and Lexer/Operators are about what the tokens are
--   Expression/Folding
--                     `stack_to_expression` and `fold_stack_at` of
--                     `src/expression_engine/parser.rs`, on the expressions that they build
--   Examples          a machine of eight states, a device in memory, sets and tables
--
-- Conventions. A method that changes `self` returns the new value. Ids are numbers, 0 is "none".
-- A text of a machine is the list of its code points, a text of the protocol the list of its bytes.
-- A `u64` is a number below 2 ^ 64, and the shifts that can drop bits say so. The tables of the
-- global data (`configuration`, `historyValue`) are arguments of the functions on the tree, and fields
-- of `Global` in the interpreter. `isFirstEntry`, which `enterStates` clears in the machine, is the
-- set `entered` of the states where it is cleared. The main loop is a relation of steps between
-- phases: in a macrostep, or waiting for an external event; Loop/Bodies relates it to the functions
-- `macrostep_body` and `on_event`, the two parts of the loop's body. Tracing is left out.
--
-- Fuel. Walks along the parents and the recursion through history states have `rounds m`, one more
-- than there are states; `isInFinalState` the same. The theorems show that this is enough in
-- well-formed machines, so that a result that ran out of fuel does not occur there. The entry set has
-- `entry_rounds m` rounds: for each depth of the tree more than there are states, since a history
-- state can lead up to its parent, but never higher. The loop of a number's bytes has as many rounds
-- as bits. The loops of the lexer have two rounds more than there are characters left; the folding
-- of a stack has one round more than there are items, of which each round takes some off.
--
-- Parameters. The device that the writer writes to (`Sink`), the data model that evaluates
-- conditions (`Conditions`), and the data model with the executable content and the sessions that it
-- starts and sends to (`Host`) are records of operations; the lexer takes the parse of a floating
-- point number as a function. Content can read the configuration and put events into the internal
-- queue; it does not change the other global data. `IsReliable` is a device that takes all that it
-- is given.
--
-- Not modelled. The start of a session (`interpret`) and the evaluation of the arguments of an
-- invoke; the rest of the parser and the evaluation of expressions, the data models and the
-- executable content; the reader of SCXML; the upper half of the serializer; threads and channels,
-- HTTP and tracing.
mod Prelude
pub mod Collections
pub mod Expression
pub mod Fsm
pub mod Protocol
mod Examples
