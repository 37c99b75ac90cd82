-- ===== src/Lib.antt =====
-- Two of the query-plan-adapters, Convex (convex/src) and ChromaDB (langchain-chromadb/src), and the
-- regular expressions of a third, Mongoose (mongoose/src). A Cerbos
-- query plan is either settled (always allowed, always denied) or a condition: a tree of operators,
-- literals and references to attributes. An adapter turns a condition into a filter that the store's
-- engine runs, into a post-filter that the adapter's own CEL evaluator runs on each document, or into
-- both.
--
-- The parts of the Convex adapter, in the order in which a plan passes through them:
--
--   Plan, Plan/Mapper   the plan's tree and the caller's mapper (convex/src/operands.ts and the types of
--                       convex/src/index.ts): `operandAt`, `resolveField`, `isNullableField`,
--                       `withOmittedNullDefault`. A field of the tree is a constructor's argument; the
--                       operators are the keys of `OPERATORS`.
--   Validate            the checks before any filter exists (convex/src/validate.ts), in the order of
--                       `queryPlanToConvex`. Validate/References and Validate/Unmapped are about
--                       `assertEveryReferenceMapped`, Validate/Nulls about
--                       `assertNoNullComparisonOperands`.
--   Pushdown            `canPushToDb`, `PUSHDOWN_RULES` and `translateExpression`
--                       (convex/src/pushdown.ts). The builder `q` is a record of functions on a type of
--                       expressions. Its children: Engine, what Convex documents of the builder's
--                       methods and of its order of values across types, as a record of operations and
--                       laws that the theorems take as an argument; Sample, a concrete engine that meets
--                       the laws; Leaves, Equality, Ordering and Answers, what one emitted predicate
--                       holds for; Sound and Total, the whole translation; Mirror and Negation, two of
--                       the rules by themselves.
--   Evaluate            `evaluate` and `OPERATORS` (convex/src/evaluate.ts). The children are the scope
--                       and the call (Frame), lambdas (Lambda), static types and node checks (Types),
--                       arithmetic (Arithmetic), lists and literals (Lists), `and`, `or` and the macros
--                       (Macros), and the other operators (Access). Duals and Lists/Subsets hold theorems.
--   Cel                 value semantics (convex/src/cel.ts): the walk along a path (Path), `valuesEqual`
--                       (Equality), `compareValues` (Order; CodePoints and Mirror hold theorems),
--                       hierarchies, timestamps, durations, `formatGoDouble` (Rendering), conversions and
--                       int arithmetic, with children for their theorems. Plain says on which values `valuesEqual` is equality.
--   Regex               the subset of RE2 (convex/src/regex.ts); Parsing and Matching hold theorems.
--   Adapter             `queryPlanToConvex` and `buildFilters` (convex/src/index.ts). Split, Correct and
--                       Outcomes hold theorems.
--   Chroma              the ChromaDB adapter (langchain-chromadb/src/index.ts and errors.ts), below.
--   Errors              what is thrown (convex/src/errors.ts): a constructor for each message.
--   Value, Number       JavaScript's values and its numbers. A number is a sign and a count of 2^-1074,
--                       an infinity or NaN, and every operation rounds the exact result to nearest, ties
--                       to even, so a double is exact here.
--   Base                shared names, lists, integers (JavaScript's bigint) and texts (sequences of UTF-16
--                       code units).
--
-- The ChromaDB adapter, in the order in which a plan passes through it:
--
--   Chroma/Split        `queryPlanToChromaDB`, `tryPushdown`, `splitCondition`; `compilePostFilter` is an
--                       argument. Chroma/Exact is about the split, for any such compiler.
--   Chroma/Translate    `mapOperand`, `mapComparison`, `compare`, `binaryOperands`, `inequalityWithoutNe`.
--   Chroma/Fields       the caller's mapper, `fieldResolver`, `postFilterFields`. An object mapper is its own
--                       properties and the names that it inherits.
--   Chroma/Comparisons  `COMPARISONS`, `negationOf`, `mirrorOf`.
--   Chroma/Literals     the checks on literals, `splitByType`, `emit`.
--   Chroma/Outcome      what is thrown: an `UnsupportedOperatorError`, with a constructor for each message,
--                       or a plain `Error`.
--   Chroma/Server       what the adapter's comments document of a Chroma server, as a record of
--                       operations and laws; Sample is a concrete server that meets them.
--   Chroma/PostFilter   `compilePostFilter` (langchain-chromadb/src/postFilter.ts and cel.ts): the values
--                       with their equality and order (Values), the static types (Types), the operators
--                       over evaluated operands (Operations), variables, literals and the helpers of the
--                       operators (Compiler), junctions and macros (Macros), arithmetic and conversions
--                       (Calculation), lists, maps, texts and the conditional (Access), `OPERATORS` and
--                       `compile` (Operators). What cel.ts and regex.ts copy from the Convex adapter is read off
--                       the modules Cel and Regex. Typing says what it is for a run to have its static
--                       type; Results, Sums, Fixed and Typed carry the lemmas of Sound; Elements and
--                       Junctions hold theorems. A run that is `none` throws the `RangeError` of `BigInt`.
--   Chroma/Meaning      CEL's meaning of a condition over flat attributes, by which the filter is judged.
--
-- Orderings, Relations, Clauses, Pairs, Groups, Memberships, Inequality, Compare and Leaves carry the
-- lemmas of Sound, and Rules those of Allowed; Exact, Refusals and Partition hold theorems.
--
-- Mongoose/Pattern models `escapeRegexValue` and `normalizeRe2PatternForMongo` (mongoose/src/regex.ts),
-- the latter's loop as a recursion over the characters that remembers whether a backslash came before.
--
-- A throw is the value `throw` of a result type; evaluation order is the order of the binds. Recursion is
-- on the tree: a call carries the evaluators of its operands, so that an operator evaluates what the
-- source reaches through `evaluate`, in another scope where the source makes one.
--
-- Fuel: the loop of `compareCodePoints` and the split into code points take one unit or two a round, so
-- the number of code units is enough, which the comparison with the dictionary order rests on; the loop of
-- `parseCelDuration` has one round for each code unit at most, and running out of fuel there is a result
-- of its own. The decimal digits of a number are counted with the number itself as fuel; the first digit
-- of a double below 1 is searched among 400 places and its digits among 17, which is enough for every
-- double.
--
-- Not modelled: the identity of objects (`Object.is` on two objects is equality of their contents),
-- prototypes of documents and mappers, the order of integer-like keys in `Object.keys`, operands with
-- several of the keys `operator`, `value` and `name`, and the texts of messages. The clock is a
-- component of the scope. Convex's engine and the Chroma server are parameters, with laws that state their
-- documentation. That the ChromaDB adapter's compiled post-filter answers as CEL does is shown for its
-- junctions and its static types only. The rest of the Mongoose adapter, the adapters for the other stores
-- and languages, the test corpus and the examples are not modelled.
pub mod Base
pub mod Errors
pub mod Number
pub mod Value
pub mod Plan
pub mod Plain
pub mod Cel
pub mod Regex
pub mod Evaluate
pub mod Pushdown
pub mod Validate
pub mod Adapter
pub mod Chroma
pub mod Mongoose
