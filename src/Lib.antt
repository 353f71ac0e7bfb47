-- ===== src/Lib.antt =====
-- rdf-parser, a parser of Turtle documents and of the triples of SPARQL queries.
--
-- The program. A grammar of PEGTL rules (Grammar.hpp) is matched against a text. When a rule has
-- matched, its action runs on the matched text and on a state. The actions of BasicActions.hpp read
-- single terms and directives into a BasicState; those of Actions.hpp join terms to triples in a
-- State, which hands each triple to a queue. A parser object owns the queue, and an Iterator reads
-- it.
--
--   Base         texts as lists of bytes with the members of std::string that the code uses, the
--                extraction operator of streams, exceptions as values of a result type
--   Rdf          include/Dice/RDF (Term.hpp, Triple.hpp, internal/AbstractTriple.hpp): a class is a
--                record with the class's members; a view is an offset and a size into the
--                identifier. ParseTerm is include/Dice/RDF/ParseTerm.hpp, and Format the formatters,
--                over the functions of fmt that they call
--   Sparql       include/Dice/SPARQL (Variable.hpp, TriplePattern.hpp)
--   States       include/Dice/rdf-parser/internal/Turtle/States: Basic is BasicState.hpp and Machine
--                is State.hpp, one function per member; Sequential is SequentialState.hpp. The
--                template parameter sparqlQuery is a Bool, and the members of the derived class that
--                State calls are the record Derived. Sequential and Concurrent fill it, and
--                Documents is about any
--   States.Machine.Events and States.Machine.Syntax
--                include/Dice/rdf-parser/internal/Turtle/Actions/Actions.hpp: an event for each
--                action, and the order in which the grammar makes them happen, over the syntax of a
--                document from `triple` down. The triples that it comes to are given there by
--                recursion on that syntax, with no stacks
--   States.Turtle
--                what Turtle gives a document, for any IRIs for first, rest and nil, and the
--                predicates on documents for which that is what this program makes of them: its IRIs
--                are the words rdf:first, rdf:rest and rdf:nil, and its empty collection is a cell
--   Grammar      include/Dice/rdf-parser/internal/Turtle/Grammar.hpp: a rule for each struct, as
--                data. Match is the documented meaning of PEGTL's combinators, with the calls of the
--                actions: an action runs when its rule has matched, and is not undone when a rule
--                around it fails. Leaves and IsByteWise (Bytes) are what is relied on of PEGTL's
--                rules for characters. Look is what the first byte of a text decides
--   Actions      include/Dice/rdf-parser/internal/Turtle/Actions/BasicActions.hpp: a function from
--                the matched text and the state to a result, for each action. Table says which
--                action belongs to which rule, those of Actions.hpp included
--   Parsers      include/Dice/rdf-parser/internal/Turtle/Parsers: the Iterator over any parser, the
--                queue of BaseStringParser, and its constructors together with
--                include/Dice/rdf-parser/TurtleStringParser.hpp (Construct). Parsable fills in the
--                parse by the grammar and its actions; Gains, Keeps and Stacks follow the heights of the
--                two stacks that the actions pop through any match
--   Parsers.File include/Dice/rdf-parser/TurtleFileParser.hpp and
--                include/Dice/rdf-parser/internal/Turtle/States/ConcurrentState.hpp: the parsing
--                thread and the client as a step relation over the queue and three atomic flags; the
--                lock-free queue is the record SpscQueue, and IsBounded says what is relied on. The
--                calls that the parsing thread makes are those of a document's events, or any list
--   Printed      Grammar.hpp with the actions on texts of a known shape: single terms, and documents
--                as Syntax describes them, printed with single spaces and a line for each statement.
--                ParseTerm is parse_term on identifiers, Documents the constructors of the string
--                parser, Turtle the same with Turtle's triples, Nodes and Kinds the kinds of the terms
--                of parsed triples, Labels the counter of fresh labels, and Clash labels that are made and written
--
-- The parse of PEGTL is a parameter of the constructors and of parse_term in Construct and ParseTerm:
-- a function from the text and the state, of which Applies and AppliesTerm say what is relied on.
-- Parsable and Printed put the parse by the grammar in its place. There only the
-- rules for characters are a parameter. What fmt::format makes of a message is a parameter too.
--
-- Undefined behaviour (an empty stack, an empty queue) is none or the exception `undefined`. Sizes
-- are numbers of 64 bits that wrap around where the code subtracts, and the one conversion to int
-- is written out. The label counter is an int, kept as its 32 bits (next_int, print_int); that it wraps
-- around is what compilers do, where C++ leaves the overflow undefined. A loop over an iterator runs
-- on fuel, and two rounds more than the queue has triples are enough: one to read the last triple, one
-- to see the end. The digits of a number n are read off with fuel n + 1, since each round divides by
-- ten. A look at the first byte of a text goes through at most 16 names, which is more than the
-- largest rank of a rule.
--
-- Not modelled: the input of PEGTL and its error messages. The rules directive and tripleExtended have
-- PEGTL's action discard_input, which has no effect on the input of a string parser, and is left out.
-- startParsing is not modelled, since it reads a stream through a buffer, of which that action
-- discards what has been read: what a rule then sees after it has gone back depends on PEGTL's code.
-- Nor are hashes modelled, which another library computes, and the time that calculateParsingTime
-- measures.
pub mod Base
pub mod Rdf
pub mod Sparql
pub mod States
pub mod Grammar
pub mod Actions
pub mod Parsers
pub mod Printed
mod Tests
