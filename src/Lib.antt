-- ===== src/Lib.antt =====
-- postgresbuild: recipes and the release index of relocatable PostgreSQL builds.
--
-- The repository builds PostgreSQL and its dependencies with the external tool ggbuild, publishes
-- the archives as GitHub releases, and serves an index of them. This library models the code that
-- decides what is published. A workflow of the repository asks main.py to publish a release;
-- src/postgresbuild/publication.py checks who asks (OIDC), reads the release's snapshot, checks it
-- record by record, copies the archives, keeps the snapshot as an immutable fragment, and projects
-- the public index from all fragments; clients read the index as JSON and as a feed of SemVer
-- versions. src/postgresbuild/maintenance.py finds newer upstream releases, partly by
-- src/postgresbuild/github.py, and checks them before they are applied.
--
-- Prelude        shared names: Python exceptions as values (Outcome), texts as code points (Text),
--                orders and a stable sort (Order, Sort), decimal numbers (Decimal).
-- Json           JSON values with Python's `isinstance`, `get`, `in` and `==`.
-- Version        `_postgres_version_key` and `_postgres_semver`; Version/Grammar has the accepted
--                release numbers as data, Version/Precedence the rules of SemVer.
-- Publication    src/postgresbuild/publication.py. Policy: `PublicationPolicy`. Oidc: `_jwks` and
--                `verify_github_oidc`. Record: `_coordinate`, `_digest`, `_release_url`,
--                `_public_name`, `_validate_record`. Coordinates: sorted sets of coordinates.
--                Snapshot: `validate_snapshot`. Fetch: `fetch_valid_snapshot`, with its calls of
--                `publish_artifact`. Fragment: `fragment` and `validate_fragment`. Index:
--                `project_index` and `validate_index`. Materialize: `materialize` as a program of
--                store requests, with any number of such programs interleaved. Feed:
--                `versions_ndjson`. Platform: what is left to Python.
-- Blob           src/postgresbuild/blob.py: `VercelBlobStore`; its listing is in Fragments.
-- Service        main.py: `oidc_failure_reason`, `publish_release` and the handlers.
-- Github         src/postgresbuild/github.py: `ReleasePage` and `latest_release`.
-- Maintenance    src/postgresbuild/maintenance.py: `desired_releases`, `compatibility`, `discover`
--                and the checks at the start of `apply_batch`.
-- Watch          scripts/babysit-pr.py: what it reads of the GitHub CLI, `classify_checks` (Checks),
--                `read_feedback` (Feedback), the loop of `watch` (Loop), a round at a time, and `main`
--                (Command).
-- Packaging      src/postgresbuild/postgresql/helpers/package-tests.py: `manifest_word` and the lines
--                of the manifest, with the shell's reading of them (Words), `suite_options`
--                (Options), `install_suite` (Suites), `install_ecpg` and `package` (Package).
-- Recipe         src/postgresbuild/postgresql/__init__.py: `canonical_ref`, `get_configure_args`, the
--                options of initdb, `validate_install_inventory` (Inventory) and
--                `discover_releases` (Releases).
-- Paths          `pathlib`'s POSIX paths.
-- Tests          runs at concrete inputs.
--
-- How the model corresponds to the code. A Python exception is a value of `Exn`, its class with its
-- message; a function that may raise returns a `Result`. A dict that has passed its checks is kept
-- as it is, in the field `source`, beside the values that later code reads from it. Python's sets
-- and dicts with tuple keys are lists; where iteration order could be seen, the code sorts. A text
-- is a list of code points, so its order is Python's. Loops over lists are recursions on the list;
-- `materialize` tries eight times and `latest_release` asks for ten pages, as the code does, so no
-- other bound is needed; the pages of a listing of the GitHub CLI or of the Blob service are read
-- on fuel, the rounds of a watch are a list, and the depth of nested test directories is fuel. A
-- regular expression is written out as a function on the text.
--
-- Parameters, which stand for code outside the repository, each with the documented behaviour that
-- is relied on: the JSON codec, the blob store, SHA-256, the package jwt, the key server and the
-- clock, `packaging`, ggbuild's registry, GitHub's pages, the GitHub CLI, `make`, the file system
-- that tests are packaged from.
--
-- Not modelled: fractional JSON numbers (no document of the program holds one, and `size` must be
-- an integer); lone surrogates in `canonical_json`; Python's limit on the digits of an `int`;
-- Unicode tables and `datetime.fromisoformat`, which are the fields of `Platform`. A request of
-- `materialize` other than the first write that raises is a writer that takes no further step. The
-- network client `GitHubReleaseClient`, the staging of `apply_batch`, the recipes' shell fragments
-- and tables of requirements, in package-tests.py the copies of programs, libraries and catalogs,
-- the line directives and the text of run-tests.sh, and the scripts poe.py, sync-githooks.py and
-- update-ggbuild.py are left out.
pub mod Prelude
pub mod Json
pub mod Version
pub mod Publication
pub mod Github
pub mod Maintenance
pub mod Service
pub mod Blob
pub mod Watch
pub mod Paths
pub mod Packaging
pub mod Recipe
mod Tests
