-- ===== src/Lib.antt =====
-- A verification library for gist, a Go library that cuts documents into
-- chunks, indexes them in a store, and answers queries with snippets under a
-- token budget (package gist, at the root of the repository).
--
-- The parts, and how they work together. Gist.Index cuts a content with
-- ChunkContent, saves a source and its chunks in a Store and learns the words of
-- the content; Gist.Search asks a Searcher, which tries the store's word search,
-- then its substring search, then the words of the vocabulary nearest to the
-- query, and makes of each match a result with a snippet; Gist counts what goes
-- in and out. Policy decides which code may be run.
--
-- Beside the library stands a registry of skills: its catalog is searched on
-- behalf of a principal (Discovery, which ranks with Lexical), the versions of an
-- artifact are kept in order (Version), and what a skill needs is resolved into
-- pinned records (Resolution); the catalog's search and the resolution ask a policy
-- what the principal may read. Accounts of GitHub sign in, and members invite
-- others, by Enrollment.
--
--   Prelude   names of the library passed on, lists, conditionals, integers
--   Text      the functions of Go's package strings that the code calls, on
--             lists of bytes; Text/Search finds, splits and joins, Text/Trim
--             trims and cuts into words, Text/Laws holds lemmas about them
--   Sort      sort.Slice as an interface, with insertion sort as an instance
--   Snippet   snippet.go: ExtractSnippet as extract_snippet, TrimToTokenBudget
--             as trim_to_token_budget; Snippet/Trim is trimToWordBoundary
--   Store     store.go: the data types and the interface Store, a record of
--             operations on a state; Store/Memory is store_memory.go, an
--             operation being a function from a state to a state and a Result
--   Chunk     chunk.go: ChunkContent as chunk_content. Chunk/Pieces holds the
--             forced split and the numbering, Chunk/Plain is chunkPlainText,
--             Chunk/Paragraphs splitOnParagraphs, Chunk/Sections chunkMarkdown
--             with extractSections, Chunk/Structured chunk_json.go and
--             chunk_yaml.go on the decoded values of Chunk/Structured/Data
--   Fuzzy     fuzzy.go: Vocabulary and FuzzyMatch
--   Search    search.go: Searcher.Search as search, its tiers as find_matches;
--             Search/Convert has the options and convertMatches
--   Engine    gist.go: New, Index, Search, Stats and Close, over any Store
--   Policy    security.go: Policy.Check as check
--   Session   session.go: the events of a session, Summary and Since
--   Compare   three-way comparisons and the laws of an ordering
--   Outcome   a value or an error, for the parts of the catalog
--   Catalog   catalog/ports: references, records, principals
--   Version   hosted/internal/storage/semver.go: compareSemver as compare_semver;
--             Version/Store is versions.go, a step of which is add
--   Lexical   internal/cataloglexical/lexical.go: Stem, Query and Index.Score
--   Discovery catalog/discovery/index.go: Service.Search as search_catalog, in the
--             steps visible_of (the loop over the records), fill and shrink (the
--             loops that make the response fit)
--   Resolution catalog/resolution/resolve.go and lease.go: Resolver.Resolve as
--             resolve, a capability as resolve_capability; an early return of a
--             finding or an error is a Stop. Resolution/References has the
--             references as text, the digests and the pins
--
--   Enrollment hosted/internal/enrollment/enrollment.go: Handler.start, callback and
--             createInvitation as start, callback and create_invitation on the
--             state of the database (EnrollmentStore), in Enrollment/Handlers;
--             Enrollment/Requests has what they read of a request and test;
--             Enrollment/Checks has the tests of identifiers, scopes and return
--             targets, the sealed cookie and githubAccount; Enrollment/Settings
--             has ValidateConfig and the configuration that New makes, in which
--             nil services and copies do not appear; Enrollment/Integer
--             has strconv's ParseInt and FormatInt, and Enrollment/Flows CreateFlow
--             and ConsumeFlow of hosted/internal/storage/enrollment.go on the
--             table of flows, with the statements that fail
--
-- A child module beside these is named for what its lemmas prove, and each Tests
-- module runs the code on concrete inputs.
--
-- What stands outside the repository's own code is a parameter: the letter case
-- tables of Unicode (strings.ToLower), the order of floating-point scores, which
-- are kept as the fraction the code divides, sort.Slice (any function that gives
-- a sorted rearrangement), the Markdown parser goldmark (the headings of a text),
-- the JSON and YAML packages (decoding and marshalling), the Levenshtein
-- distance, and the order of strings. The registry's parameters are the records
-- Services and ResolverServices: catalog, policy, clock, store, decoders, hashes,
-- sizes in JSON. The parameters of sign-in are the record Platform (URLs, base64,
-- the cipher, hashes, the answers of GitHub, sessions) and a database connection:
-- which statements fail, which expired rows a DELETE with a LIMIT takes, and what
-- the statements on the other tables do. A string is its list of bytes, an int is
-- a natural number or an integer where the code lets it be negative. Byte offsets
-- stay below the length of a text in memory and do not overflow; the product in
-- TrimToTokenBudget can, and wraps round here as it does there. A panic of the
-- code, there and where the Markdown splitter cuts between two headings, is a
-- result of its own (none).
--
-- Fuel. A loop of the code is recursion on a list wherever it runs over one.
-- force_split has the length of the text as fuel, and each round takes at least
-- one byte when the limit is positive; term_positions has one more than the
-- length of the content, and each round goes on after the match it found; the
-- two loops that look for a sentence end run for the rounds the code computes
-- for them from its constant of 50 bytes; shrink has one round more than there
-- are candidates, and each round takes one away; digits_of has one round more
-- than the number, and each round divides it by ten.
--
-- Not modelled: BatchIndex and the locks (each operation is one step), the
-- options of New, which only wire parts together; the PostgreSQL store and
-- executor.go, whose work is done by a database and by processes; snapshot.go,
-- mcp/, cmd/, tools/ and the parts of catalog/, internal/ and hosted/ that are not
-- named above, which stand apart from the searches and resolutions.

pub mod Prelude
pub mod Text
pub mod Snippet
pub mod Sort
pub mod Store
pub mod Chunk
pub mod Fuzzy
pub mod Search
pub mod Engine
pub mod Policy
pub mod Session
pub mod Compare
pub mod Outcome
pub mod Catalog
pub mod Discovery
pub mod Enrollment
pub mod Resolution
pub mod Version
pub mod Lexical
