-- ===== src/Lib.antt =====
-- kb_graph: a verification library for the knowledge graph's core.
--
-- The program keeps a graph of dated facts in SQLite and feeds it from the transcripts of coding
-- agents. Its parts here:
--  * Facts models src/facts.js over the tables of src/db.js. A `Graph` holds the rows of entities,
--    entity_aliases and facts. Facts/Ids is canonicalEntityId; Facts/Graph is resolveEntity,
--    entityKey and addFact; Facts/Retire is invalidateFact and invalidateFactById; Facts/Merge is
--    dedupeLiveFacts and mergeEntity; Facts/Query is queryFact, factTimeline, factStats and
--    nearbyEntities. Each operation takes the graph and returns the next one with its answer; a
--    transaction is one step.
--  * Predicates models src/predicates.js: Spelling is rawPred, stem, inflectionOf and lemmaKey;
--    Registry is the tables that are computed from the two predicates.json files, and
--    canonicalPredicate and canonicalTriple. addFact and dedupeLiveFacts fold predicates through
--    it.
--  * Capture models src/session-capture.js: Request is createCaptureRequest; Queue is the upsert
--    of enqueueSessionCapture; Process is recoverExpiredLeases, dueQueueFiles, claimQueueItem and
--    processSessionCaptureQueue; Status is resolveCaptureTranscript and sessionCaptureQueueStatus;
--    Leases puts the steps of hooks and daemons in any order.
--  * Reviews models normalizeReviewItems and buildReviewState of src/fact-reviews.js, the checks
--    of a manual review of the live facts of one subject and predicate, which the caller has read
--    from the fact graph.
--  * Documents models the documents and vault files of src/db.js and src/tags.js: Rows is the tables
--    as lists of records in a `Store`; Writing is insertDocument, updateDocument,
--    updateDocumentFull, supersedeDocument, promoteDocumentTier and backfillTiers; Vault is
--    deleteDocument, upsertVaultFile, detachVaultFile and moveVaultFile; Purge is
--    detachedDocumentBatch and purgeDetachedDocumentBatch with the loop, and Purge/Command the
--    command of src/cli/vault-cli.js that runs it; History has the writes as a step relation.
--  * Tiers models src/tiers.js, which Documents and Reconcile call: Sources is sourceFamily,
--    References the shapes of references, Repos resolvedReferenceIn, Claims resolveTier and
--    assertTier.
--  * Reconcile models the part of src/reconciliation.js that reviews an old note and applies a
--    supersession to the documents (Review, Notes), the sources it resolves, and the rounds over its
--    queue.
--  * Triggers models src/trigger-match.js (Split, Command, Match) and the decision of
--    src/cli/trigger-hook.js (Hook) on a session's marker, with the sweep of old files (Sweep) that
--    runs before the marker is written.
--  * Prompt models src/secret-prompt.js as a state machine over the events of readline.
--  * Base holds what they share: Boolean tests, lists, texts and dictionaries.
--
-- Correspondence: names are the source's in this language's spelling. A string is a list of code
-- units; lower case is that of ASCII, and a date or timestamp is compared as text, as SQLite does.
-- A file of the queue is an entry of a dictionary, whose content is `none` where it cannot be
-- read. The times of Capture are natural numbers of milliseconds,
-- those of Documents texts, as the tables hold them.
--
-- Parameters, since their code is not here: the clock, the hash, the checks of a transcript's
-- path, the regular expressions for work items, SQLite's LIKE, localeCompare, and what a harvest
-- reports; for the tiers the file system, paths and git, which are the fields of `Host`; for the
-- documents the time of a write and the token of a dry run; for the prompt the events. For a review of a note
-- what the search of a source finds, the model's answer and redactSecrets are parameters, too. Loops are by
-- recursion on lists. The one loop on fuel is purge_loop, whose fuel is the number of ids up to the
-- largest eligible one: each turn moves its cursor on by at least one. The command that runs it is the
-- only writer while it runs. The triggers of SQLite that
-- keep the search index, and the one that wants a tombstone before a delete, which a purge writes
-- first, are not part of the store. Not modelled: logging, file modes, migrations, HTTP and MCP
-- servers, extraction by language models, embeddings and search, the indexing of the vault, and the
-- other commands of the command line.
pub mod Base
pub mod Facts
pub mod Predicates
pub mod Capture
pub mod Reviews
pub mod Triggers
pub mod Prompt
pub mod Tiers
pub mod Documents
pub mod Reconcile
