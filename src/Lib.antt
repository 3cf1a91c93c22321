-- ===== src/Lib.antt =====
-- Verification of the artifact toolkit: sign-in, repository authorisation, the artifact library
-- and the storage of the Codex runner.
--
-- The program is a web application. A user signs in with GitHub (lib/oauth-route-handlers.ts over
-- lib/auth.ts); the sign-in leaves a session in a table (lib/auth-session-store.ts) and an
-- authorisation for the one configured repository (lib/repository-authorization.ts); the pages and
-- API routes then ask the gates of lib/auth.ts, which renew the authorisation where it is old. What
-- is read and written there are artifacts, Markdown files at the paths of lib/repository-layout.ts.
-- A Codex runner beside it keeps SQLite databases of its App Server on a local file system, backs
-- them up and restores them (codex-runner/src/sqlite-storage.ts).
--
-- Files, and the code each is about:
--   Common              results, text as UTF-16 code units, bit operations, JSON values
--   Auth.Types          the constants and records of lib/auth-core.ts
--   Auth.Core           cookies, constantTimeEqual, randomToken, validateGitHubUser
--   Auth.Configuration  lib/auth-configuration.ts, with base64 and atob
--   Auth.Sessions       serializeSession and parseSession; insertSession, updateSessionAuthorization,
--                       findSession and revokeSessionId over a table of rows
--   Auth.Repository     lib/repository-authorization.ts, with githubJson of lib/github-app.ts
--   Auth.Access         resolveRepositoryAccess of lib/auth.ts, one function for each of its parts
--   Auth.ReturnTo       safeReturnTo
--   Auth.Oauth          createOAuthStart, consumeOAuthState, exchangeGitHubCode, createSession,
--                       getSession, destroySession
--   Auth.Callback       lib/oauth-route-handlers.ts, and the functions of lib/auth.ts it is given
--   Auth.Gates          requireAuth, requireRepositoryAccess, the diagnostics and API gates, and
--                       lib/public-repository-configuration.ts
--   Auth.Examples       a deployment at concrete values, and the theorems there
--   Library.Layout      lib/repository-layout.ts
--   Library.Contract    lib/artifact-contract.ts: metadata, ids and paths of artifacts
--   Library.Requests    credential, retryDelay and githubJson of lib/artifact-repository.ts
--   Library.Branch      fetchTree, fetchBlob and artifactsFromTree, and findByIdWithRevision
--   Library.Repository  prepareArtifactWrite, update, create and delete, with the requests they send
--                       and createVariation
--   Library.Variation   slugify of lib/artifact-id.ts and prepareVariation
--   Library.DefinitionId    lib/definition-id.ts
--   Library.Report      what diagnoseCatalogue counts and shows
--   Library.Catalogue   list, findById, loadCatalogue and diagnoseCatalogue
--   Library.Search      lib/search.ts
--   Library.WriteAnswers    artifactWriteErrorResponse of lib/artifact-write-http.ts
--   Library.Selection   createArtifactRepository
--   Library.FileRepository  walkMarkdownFiles and FileArtifactRepository
--   Runner.Files        directories, and the names of databases and backups, of
--                       codex-runner/src/sqlite-storage.ts, as are the following
--   Runner.Mounts       parseMountInfo and classifyFilesystem
--   Runner.Metadata     parseBackupMetadata, and the manifest that a backup writes
--   Runner.Storage      the state of SqliteStorageManager, the file operations, steps that can fail
--   Runner.Backups      databases, safeBackupDirectory, list, createBackup and prune
--   Runner.Restore      restore
--   Runner.Manager      bootstrapLegacySqlite, initialize and status
--   Runner.Examples     a home with a backup at concrete values, and the theorems there
--
-- Functions keep the source's names in snake case. An exception is an `err`; a function that writes
-- takes the table, or the table and the cookies, and returns them with its result, so that what was
-- written before an exception stays written. A statement of the database can fail as a whole; the
-- table carries a list that says of each coming statement whether it does. Times are milliseconds and
-- parameters; where a function reads the clock more than once the readings are separate parameters
-- where they matter. Numbers of JSON are natural numbers. Lower case is that of the ASCII letters;
-- other letters keep their case here.
--
-- In Runner a step takes the manager's state, with the directories it works on, and returns it with
-- its result. The state carries a list that says of each coming file operation whether it fails. A
-- rename or a copy that fails changes nothing; what a removal of a directory leaves when it fails is
-- a parameter. The App Server may change its files whenever it runs; its stops and starts are
-- parameters.
--
-- Parameters, since their code is not here: GitHub's replies, the keyed hash of session ids, the
-- encryption of tokens, the text of JSON and of front matter, base64 and UTF-8 of blobs,
-- percent-decoding and the URL parser; digests, the sqlite3 program, the App Server, the clock and
-- the order of texts by locale; the patterns of secrets are a parameter too. Loops over lists
-- are structural; the loop of githubJson has three turns, as many as its attempts, and needs no more.
--
-- Not modelled: the provider of installation credentials, the parsing of private keys, log texts,
-- pages, the workflow engine, the servers and jobs of the runners and the
-- vault; the timer of the backups.
pub mod Common
pub mod Auth
pub mod Library
pub mod Runner
