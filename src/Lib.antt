-- ===== src/Lib.antt =====
-- Verification of open-blog, a multi-tenant blog server in Go over Postgres.
--
-- The program: HTTP handlers (internal/api) resolve an actor (internal/authz) and call the services for
-- posts, media and imports; a service opens a transaction with the actor's scope (internal/store), whose
-- row-level security bounds what its statements see; a change that readers see bumps the tenant's content
-- version and enqueues a purge in the same transaction (internal/jobs); workers claim jobs and run the
-- handlers of media and import. The public read path (internal/publicapi) resolves tenant slugs through a
-- cache (internal/tenancy) and reads what is published. Logins by Google and GitHub (internal/oauth) keep
-- a flow between their two requests and end in a session (internal/auth).
--
-- Files and what they model:
-- - Base: texts as lists of code points, Boolean tests, lists measured by native numbers, and the parts
--   of Go's `strings` and `strconv` that the program uses.
-- - Store (internal/store/store.go, internal/store/queries.go, migrations/0002_rls.sql): Rows has the
--   tables as lists of records in one `Db`, with numbers for uuids (0 is `uuid.Nil`) and nanoseconds for
--   times; the columns of JSON other than the metadata of a post hold the text that was given, which is
--   taken to be as `jsonb` writes it. Tx has `Scope`, the policy `visible`, `Scoped` and `ScopedRW`: a
--   transaction is a function from a database to an error or a result with the new database, and
--   `scoped_rw` keeps the old one on an error. Posts, Tenants, Images, Imports, Accounts, Users, Oauth and
--   Platform have one function per query, with its constraints.
-- - Authz (internal/authz): Roles has the roles, capabilities, `Can`, `Require`, `OwnsPost`,
--   `ScopeFromActor` and `ResolveActor`.
-- - Auth (internal/auth/auth.go): `Issue`, `Verify`, `Logout`, `Login` and `Signup`.
-- - Render (internal/posts/renderer.go): Urls, Attrs and Sanitize have the tests on URLs, attributes and
--   styles, and the walk of `appendSanitized`; the walk is structural on the nodes.
-- - Jobs (internal/jobs): Queue has each SQL statement and the functions that run them; Life has the
--   steps of the API, the workers and the sweeper, in any order, with jobs in flight that can be lost, and
--   the loop of one worker.
-- - Posts (internal/posts/service.go): Slugs has `deriveSlug` and `uniqueSlug`, Service the operations.
--   The checks that the code makes before it opens the transaction stand at its beginning.
-- - Imports (internal/import): Convert has the converters, Source the sources, titles and slugs, Service
--   `Start`, `Get`, `Apply` and `handleJob`; the upload of `Start` stands before its inserts.
-- - Media (internal/media/media.go, internal/media/variants.go): `Confirm`, `Delete`, the keys of
--   `Presign`, and the variants.
-- - Tenancy (internal/tenancy/resolve.go): `ValidSlug` and the cache of `ResolveSlug`.
-- - Public (internal/publicapi): Codec has the cursors, Response the responses and entity tags, Srcset
--   the images, Pages `List` and Reads `Get`, `GetHTML` and `Site`. Following and Paging follow the
--   cursors, Conditional is about entity tags, Visibility about what the operations of Posts make public,
--   Agreement about the two forms of a post, Images about the order of Go's maps.
-- - Oauth (internal/oauth): Scopes has the lists of scopes, External the redirects and the sealing of
--   tokens, Providers the claims, Identities `LinkIdentity`, `ConsumeInvitation` and `resolveIdentity`,
--   Service `Start` and `Callback`, Tokens `GetGoogleToken`. The requests of a callback to the provider
--   stand between its transactions.
-- - Api (internal/api): Replies has the replies, the map of errors to statuses, and handlers as
--   functions from a database to a reply and a database, built from early returns, decoded requests and
--   transactions. Session has the middleware `auth` and the handlers for accounts, Members, Tenants and
--   Content the others. Limiter has the limiter of rates and its janitor.
-- - Samples: the data of the examples, which stand in the modules called Tests, SlugTests and
--   SuccessTests.
--
-- Given from outside, as parameters: goldmark, `html.Parse`, `html.Render`, `url.Parse`, the lower case of
-- code points above ASCII, the decoding of metadata and its text in `jsonb` (`Render.Html.External`); the
-- text of a uuid; new ids, tokens and the time; SHA-256 and argon2 (`Auth.Service.AuthExternal`); pandoc,
-- pdftotext, the Drive endpoint, the object store and `mime.ExtensionsByType`
-- (`Imports.Service.ImportExternal`); the JSON of cursors and variants, hexadecimal SHA-256, jsonb
-- containment and the digits of times (`Public.Codec.PublicExternal`, of which `IsCodec` says that JSON
-- gives back the cursors that it wrote); AES-GCM, x/oauth2 with the endpoints of the providers, Postgres'
-- lower case and collation (`Oauth.External.OauthExternal`, of which `IsSealed` says that AES-GCM opens
-- what it sealed); the limiter of golang.org/x/time/rate (`Api.Limiter.RateExternal`, of which
-- `IsForgetful` says that one that was idle for longer than the ttl goes on as a new one). Texts are
-- well-formed UTF-8.
--
-- Bounds: the loop of `uniqueSlug` runs on the rounds that the code allows, 9999 after the first test.
-- `itoa` runs on one more than the number, which is more than its digits. A content version is a `bigint`
-- and the attempts of a job are an `integer`; the overflow of either is an error of the statement. Native
-- numbers stand for Go's `int` elsewhere, where no operation of the model leaves its range.
--
-- The loop of Paging that follows the cursors runs on a number of requests, which its theorem bounds by
-- the posts and one more.
--
-- Not modelled: HTTP and the JSON of requests and bodies (internal/api, internal/publicapi), the routes
-- that ask the limiter, CORS and the lists of members, memberships and tenants, which order by times of
-- creation (internal/api), argon2 (internal/auth/password.go), the configuration of internal/oauth,
-- signatures and libvips (internal/media), the position of images, which is 0 in every insert, timers,
-- contexts and `EnqueueBatch` (internal/jobs), wiring (cmd), the client (web), and a negative size of an
-- image. A transaction is one step: statements of two transactions are not interleaved, and a claim by two
-- workers at once is `locked`, the rows that FOR UPDATE SKIP LOCKED passes over.
pub mod Base
pub mod Store
pub mod Authz
pub mod Auth
pub mod Render
pub mod Jobs
pub mod Posts
pub mod Imports
pub mod Tenancy
pub mod Media
pub mod Public
pub mod Oauth
pub mod Api
pub mod Samples
