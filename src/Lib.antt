-- ===== src/Lib.antt =====
-- Verification of the analysis bridge of SonarJS: the Node.js process (src/) that receives requests
-- for analyses over HTTP, parses the files, lints them with ESLint or Stylelint, computes metrics,
-- and sends back issues, metrics, highlighting and tokens for copy-paste detection. Paths are those
-- of the repository.
--
-- The parts and their files:
-- - Prelude and its children: Boolean tests on native numbers, lists measured by them, JavaScript
--   sets (lists without repetition in order of insertion), maps by identity, strings as lists of
--   UTF-16 code units.
-- - Dataflow.Lva: src/linting/eslint/rules/helpers/lva.ts, live variable analysis, the base of the
--   rules on dead stores. `lva`, `LiveVariables.add` and `propagate` (`gather`, `update`) work on a
--   map from the numbers of code path segments. Its children state and prove the analysis: Graph
--   (graphs of segments, and the paths between `gen` and `kill`), Sets, Invariant, Round,
--   Termination, Correct.
-- - Dataflow.DeadStore: src/linting/eslint/rules/no-dead-store.ts on top of it. Scopes has what the rule
--   reads of trees and scopes and how it resolves identifiers, State its state, Events its handlers, Check
--   `checkSegment` and what else runs on `Program:exit`, Reads, Known and the
--   children of Events what is proved of them.
-- - Metrics: src/linting/eslint/linter/visitors. Ast has the trees and `childrenOf`, Visitor has
--   `visit` and `visitAndCountIf`, Counts the files metrics/{classes,functions,statements,
--   cyclomatic-complexity,executable-lines}.ts, Lines and Tokens metrics/helpers, Comments
--   metrics/{comments,nosonar}.ts, Ncloc metrics/ncloc.ts, Compute metrics/compute.ts, Cpd cpd.ts,
--   Highlighting syntax-highlighting.ts, Symbols symbol-highlighting.ts.
-- - Linter: src/linting/eslint/linter. Rules has parameters/*.ts, Config config/*.ts and
--   `createConfig` of wrapper.ts, QuickFixes quickfixes/*.ts, Issues and Issues.Transform
--   issues/*.ts, with the encoding of secondary locations of rules/helpers/location.ts,
--   Decoration decoration/*.ts and the loader of external rules in bundle-loader.ts.
-- - Recognizers: src/linting/eslint/linter/recognizers. Doubles is the interface of the floating
--   point numbers that the estimate of commented-out code uses, Detectors has detectors/*.ts,
--   Code the class CodeRecognizer and JavaScriptFootPrint.
-- - Regex: Regex.Tokenizer has src/linting/eslint/rules/helpers/regex/tokenizer.ts, which relates the
--   characters of a string literal to positions in the source; Regex.CharacterClass has
--   src/linting/eslint/rules/helpers/regex/simplified-regex-character-class.ts and the rule
--   duplicates-in-character-class.ts, over the interface Ordered of the package
--   functional-red-black-tree; Regex.Complexity has the calculator and the check of
--   src/linting/eslint/rules/regex-complexity.ts, Regex.Parts its RegexPartFinder.
-- - Rules: rules of src/linting/eslint/rules with a state of their own. Traversal is ESLint's traversal
--   of a tree, Jumps is too-many-break-or-continue-in-loop.ts, Expressions expression-complexity.ts,
--   Nesting nested-control-flow.ts, Increments for-loop-increment-sign.ts.
-- - Server: Timeout has src/routing/timeout/*.ts, which shuts an idle server down; Programs has the
--   store of TypeScript programs of src/services/program/program.ts; Errors has src/errors/error.ts
--   and src/routing/errors/middleware.ts; Parsing has src/parsing/jsts, the choice of a parser;
--   Linters has src/linting/eslint/index.ts and `LinterWrapper.lint`; Analysis has
--   src/services/analysis/analyzers/js/analyzer.ts and src/services/analysis/runner.ts; Embedded has
--   `analyzeEmbedded` of src/services/analysis/analyzers/embedded/analyzer.ts. Outcome is the result
--   of what they compute: a value, an exception, or no end within the rounds.
--
-- A request runs through Server.Analysis: `runner` reads the file if need be, `analyzeJSTS` takes the
-- linter of the request, parses the file and calls `analyzeFile`, and the error handler answers where
-- one of them throws. `LinterWrapper.lint` runs ESLint under the configuration of `createConfig` and
-- hands its messages to `transformMessages`; then the visitors compute metrics, highlighting and tokens
-- from the same `SourceCode`. The wrapper enables two rules of its own, whose messages carry the symbol
-- highlighting and the cognitive complexity: `transformMessages` takes their issues out again.
--
-- State is passed explicitly. A JavaScript exception is a value: `Thrown` in the linter, `none` or
-- `type_error` where the code would read a property of undefined. Loops that are not structural run
-- on fuel and return `none`, `out_of_fuel` or `unfinished` without it: `visit` needs one round for each
-- node that it meets, `tokenizeString` at most one for each unit of a literal without escapes, and `lva`
-- one for each segment and, for each variable of a segment, one for each of its predecessors
-- (`enough`). Numbers of lines, columns and indices are natural numbers; the columns of issues and the
-- level of nested expressions can go below zero and are integers.
--
-- Not modelled: ESLint, Stylelint, TypeScript, Node.js and the parsers, which are arguments (`verify`,
-- `parseForESLint`, visitor keys, tokens, `getLocFromIndex`, `JSON.parse`, `Number`, upper case, timers,
-- the clock, floating point numbers, red-black trees) with their documented behaviour as named
-- hypotheses; the rules of src/linting/eslint/rules but for those named above, most of which are
-- patterns on syntax trees and types without a state; the parsing of YAML and HTML and the patch of
-- locations behind it; Stylelint's results; the HTTP routes, which only pass requests on; the Java
-- plugin. Console output and the wording of messages with numbers in them are left out.
pub mod Prelude
pub mod Dataflow
pub mod Metrics
pub mod Linter
pub mod Server
pub mod Regex
pub mod Recognizers
pub mod Rules
