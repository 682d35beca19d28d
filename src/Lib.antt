-- ===== src/Lib.antt =====
-- The boutique backend: a multi-tenant shop API in Django and ninja.
--
-- Parts. Every table carries the boutique that it belongs to. A request names the boutique by its
-- slug; customers act in their own name, sellers through a membership that the gate of the seller
-- endpoints checks. Orders are priced from the catalog and notify the customer through web push;
-- favorites name products, and the storefront lists them.
--   Models (src/apps/*/models.py): one record for each Django model. A table is the list of its rows
--     in the order of insertion; a UUID or a timestamp is a number, a foreign key the id of a row.
--   Api: what the services run in. An action takes the world (the database, the count of drawn ids,
--     the pushes sent, the log) and gives a result and the new world; an exception is a value, and
--     what was written before it stays unless `atomic` rolls it back, since the settings leave
--     ATOMIC_REQUESTS off. Bind, Keeps, Returns, Leads and Avoids are the rules to reason about
--     actions.
--   Tenancy (src/apps/boutiques, src/api/v1/permissions.py): `require_membership` and the store
--     admin's reads (Roster). Access and Decision say who passes.
--   Push (src/apps/push): `subscribe`, `unsubscribe`, `_send` and the two notifications; Requests
--     has the handlers. `webpush` is a library: a Gateway says how its n-th call ends.
--   Orders (src/apps/orders): services.py, its look-ups in the catalog in Options, with Schemas,
--     Selectors and the handlers (Requests). Quote prices a payload without a database to write to,
--     Lines, Building and Placement relate the code to it; Choices says which option ids resolve;
--     Keys, Replay, Ledger (over Totals), Progress, Inbox and Isolation are about keys, replays,
--     totals, statuses, the inbox and the seller's handlers. Held and Seal follow an order that was
--     placed, Items is about the lines' key, and Views is how an order is shown.
--   Favorites (src/apps/favorites): the services, the list and the handlers; Refinement views the rows
--     as a set of likes.
--   Catalog (src/apps/products): the storefront's reads, with the filters and the query parameters in
--     Criteria, the category index in Index, the filter rail in Facets, and in Cards how products are
--     shown; Listing (over Grid) and Paging are about the grid and its pages, and Facets.Agreement relates the
--     rail's counts to the grid. Slugs is `_unique_slug`; Creation is `create_category` and
--     `create_product`, over the INSERTs of Rows, with Constraints on what they keep, Failures on how
--     they end and Retry on the five attempts. Writes changes and deletes a product (Update,
--     Deletion), and Upload stores a photo.
--   Accounts (src/apps/users): registration, the password reset, the addresses and the session. What
--     hashes, checks or mails is a field of the record `Auth`. Phone is `_clean_phone`, Spellings
--     says which spellings it takes for one number, and Stored what a registration makes of it.
--     Addresses is about the key of the saved addresses.
--   Media (src/boutique/media.py): the storage of the photos, from the environment.
--   Settings (src/boutique/settings.py): the settings as a function of the environment, which
--     Environment models, with the constants in Constants. Origins is about CORS, Deployment (over
--     Loading) about what must be set and DEBUG.
--   Migrations (src/apps/*/migrations): the operations as data, replayed to the tables that they
--     leave; Agreement sets their unique constraints against the tests of the services' INSERTs.
--   System (src/api/v1/api.py): a request of each endpoint with the handler that serves it, and the
--     courses `Run` that the database can take. A request has a gap between its check and its write,
--     or five, and what others commit there is a course itself. Lasting says what the
--     services' transactions have to keep and Course, by induction, that a course then keeps it;
--     Soundness, Retries, Permanence and Receipts apply it.
--     The modules called Frame say, component by component, which writes a property has to stand.
--   Scripts (scripts/): the repository's checks of task names (TaskNames) and of the twin workflows
--     (Workflows), with the file system and the parsers as parameters.
--   Samples, the Tests modules and Orders.Gates run the code on one shop, as the repository's fixtures
--     set it up.
--
-- Query sets are functions on lists (Prelude.Tables, Prelude.Sorting). Sorts are stable, so rows that
-- compare equal keep the order of insertion, where PostgreSQL promises none. `Runtime` gives the ids
-- and the clock by the number of draws. Where a check and a write race, `others` is what other
-- requests commit in between. PositiveIntegerField refuses a number above 2147483647 with a data
-- error, and CharField a text that is too long.
--
-- Loops run over lists, but three. The search for a slug has as many rounds as the table has rows, and
-- one more: a row takes one candidate at most and no two candidates are alike, so one of them is free.
-- A search out of rounds is the model's own error `out_of_fuel`. The five attempts of `create_product`
-- are counted down as in the source. `spell` takes a number's value and one as the bound of its digits.
--
-- Not modelled: the URL and Celery wiring and the admin registrations, which are declarations for the
-- framework; the token endpoints of the JWT library; the retry of a mail task on a worker; what only
-- Python sees of a migration's field (defaults, labels, orderings). Token checking, hashing, mail,
-- object storage, `slugify`, the regular expressions' character classes, the parsing of environment
-- values and of URLs, and the database's collation are libraries' or services'. A request's writes are
-- not interleaved finer than at its gaps: a transaction's own statements run together.
pub mod Prelude
pub mod Models
pub mod Api
pub mod Tenancy
pub mod Push
pub mod Orders
pub mod Favorites
pub mod Catalog
pub mod Accounts
pub mod Media
pub mod Scripts
pub mod System
pub mod Settings
pub mod Migrations
mod Samples
