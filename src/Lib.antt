-- ===== src/Lib.antt =====
-- The headless inbox client of packages/client with the stub server that it is tested against, the
-- logic of the components of packages/react that show it, the admin console of server/admin, and the
-- load harness of bench/sse.
-- The client keeps a snapshot in a store and an event stream to the server. Calls patch the
-- snapshot at once and send a request; stream events ask for a refresh; the components read the
-- snapshot and call the client.
--
-- Types        packages/client/src/types.ts, and the wire schemas of generated/api.d.ts that are read
-- Errors       packages/client/src/errors.ts, and how `http` of client.ts classifies a response
-- Store        packages/client/src/store.ts: the snapshot, its patches and its listeners
-- Client       packages/client/src/client.ts, in parts:
--   State        the fields, the constructor and the head of `http`
--   Connection   connect, close, setCredentials, openStream, handleStreamFailure
--   Merge        toItem, isOlderThan, mergeFirstPage
--   Refresh      refresh, doRefresh, setFilter
--   Paging       fetchMore, doFetchMore
--   Mutations    markRead to setPreferences, with their rollbacks
--   Step         one event of a client's life, and histories of events
--   Lifecycle    the connection through every event
--   Items        the loaded items through every event
--   Backoff      packages/client/src/backoff.ts
-- Stub         packages/client/src/test-support/stub-server.ts, in parts:
--   Listing      listItems: views, cursors, validators
--   Routes       fetchFn and route, with injected failures
--   Streams      FakeEventSource and what the stub emits
--   Order        the order of its rows
--   Access       which requests it lets through
--   Pages        the page behind a cursor, where the rows are newest first
--   Session      the fill effect of the client against the stub
--   Served       what it makes of a client's last request
--   Rows         what a client shows of its rows
--   Agreement    the client's optimistic patch against the stub's write
--   Archived     the unread count of the archived view
-- React        the logic of the components of packages/react/src, in parts:
--   Preferences  applyWrites and usePreferences of hooks.ts, components/Preferences.tsx
--   Pill         the pill of components/NotificationList.tsx
--   Tabs         the tab strip of components/InboxContent.tsx
--   Navigation   navigation.ts, and the click on an item of components/InboxContent.tsx
--   Popover      the open state of Inbox.tsx and the label of components/Bell.tsx
--   Session      the credentials of Inbox.tsx
--   Time         formatRelativeTime and useNow of time.ts
--   Dismissal    what closes the popover, the menu of components/InboxContent.tsx and its preferences
--   Localization localization.ts
--   Appearance   appearance.ts
--   Hooks        useNotifications and the counts of hooks.ts
--   Ownership    the client that Inbox.tsx or context.tsx makes, connects and closes
--   Fill         the effect of components/NotificationList.tsx that fetches further pages
--   Rows         the rows of components/NotificationList.tsx with components/DefaultItem.tsx
-- Admin        the admin console of server/admin/src, in parts:
--   Records      the types of lib/api.ts
--   Api          the requests and responses of lib/api.ts, its endpoints in Api/Endpoints
--   Session      AuthGate of lib/auth.tsx, with routes/login.tsx
--   Theme        lib/theme.tsx
--   Pages        the state of the pages in routes, with their calls, toasts and dialogs; Pages/Parts has
--                components, and Pages/Dashboard what the dashboard counts
-- Bench        bench/sse/sse-load.mjs, in parts:
--   Stream       the frames of a stream and their fields
--   Harness      the state and its handlers; Harness/Run has the callbacks and the stages of main
--   Percentiles  pct and summarize
--   RoundRobin   the spread of the connections over the subscribers
--   Report       the summary
-- Prelude      Booleans, lists and texts that the parts share
-- Tests        runs at concrete inputs
--
-- A method keeps its name in snake case, and a field too: `setFilter` is `set_filter`,
-- `viewGeneration` is `list.view_generation`. An async function is split at its awaits. Its head runs
-- in the call, and each rest is an event: `doRefresh` is `do_refresh` up to its requests,
-- `refresh_settled` when they have settled, and `refresh_returns` in the microtask in which the loop
-- of `refresh` goes on. A history is a list of events in any order, so every interleaving of
-- responses, stream events, timers and calls is one. An event that cannot happen (a response that
-- nobody waits for, an event of a closed source) changes nothing. Lifecycle/Ended has histories in
-- which closed sources and cleared timers call back too, as the fake source of the tests does.
--
-- The platform is a part of the state: `streams` are the event sources that are not closed, `timers`
-- the timeouts that wait, `sent` the log of requests. What fetch, EventSource and JSON.parse answer
-- comes with the event. The server's code is not read: where a theorem needs that a page is in order
-- or names no id twice, it says so. The stub server stands in for it where a theorem is about both
-- ends: it gets the last request of the client's log. What the platform gives the stub (JSON on a
-- cursor, Number, Date) is a record of functions with one law, that a cursor is read back as it was
-- written; the numbers of the backoff are a record of operations.
--
-- Loops are structural. Fuel has three uses: `decimal`, with n + 1 rounds for n, each of which drops a
-- digit; the rounds of the fill effect, of which one more than the rows of the view is enough; and the
-- frames of a buffer, with as many rounds as it has characters, of which each frame takes two.
--
-- Not modelled: the rounding of a computer's numbers in the reconnect delay (a timer keeps the
-- count of attempts, of which Client/Backoff makes a number), fractions of a millisecond in a retry
-- directive, the rounding of a percentile's rank at percents that the load harness does not ask for, the
-- cause that an error keeps, percent encoding of URLs, listeners that call back into
-- the client, the value that a method returns to its caller, markup and styles, the effects of the
-- components that have no part above, the badges and the subscriber page of the admin console but for
-- its message, what Radix and react-query do for its pages, the command line and the request bodies of
-- the load harness, and the server.
pub mod Admin
pub mod Bench
pub mod Client
pub mod Errors
pub mod Prelude
pub mod React
pub mod Store
pub mod Stub
pub mod Tests
pub mod Types
