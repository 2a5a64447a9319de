-- ===== src/Lib.antt =====
-- The realtime path of the dashboard's front end, apps/frontend/src/features/realtime; the series of
-- minutes that apps/frontend/src/features/dashboard makes of its events; and the session of the user, on
-- which the connection depends.
--
-- The program holds one HTTP stream of server-sent events open, cuts its text into frames, keeps the
-- events that belong to a trading session, collects them into a batch, merges the batches of a window
-- of time, and applies the merged batch to the store that the pages read. The hooks of the dashboard
-- keep series of a point per minute, which start from the rows of the day and take in what the store
-- holds last.
--
--   Sse      services/realtime-manager.ts, splitSseBuffer and parseSseFrame, and the buffer that the
--            read loop carries from one chunk to the next (feed). A text is a list of code units.
--            The loop of splitSseBuffer runs on fuel, the length of the text, which is enough since
--            each round drops at least two code units.
--   Gate     shouldApplyDashboardSseEvent, toEpochMs and the cached bounds of a session, with the
--            copies of sse-worker.ts. The calendar of the platform is a parameter.
--   Collect  collectServingSseEvent: schema, code and field of the batch for each kind of event.
--   Schemas  schemas/serving-event.schema.ts, each schema as a value that zod is given.
--   Stream   the loop over the frames of a chunk, which joins Sse, Gate and Collect.
--   Batch    ServingSseBatch, and the tests and the union of mergeIntoPendingBatch and of
--            flushPendingBatch.
--   Store    store/realtime.store.ts: the setters and applySseBatch. The function builds a partial
--            state, which is a Patch here; a key is set in it when its option is not none. A throw of
--            the function is none.
--   Manager  the class RealtimeManager: connect, disconnect, start, startWhenReady, its handlers and
--            the timers, as functions on the object's fields. Manager/Steps.antt has the relation of
--            the steps that the event loop may take, in any order: the calls of the two public
--            methods, timers, and the continuations behind an await. The promises that have not
--            settled, each with the token that its stream has been opened with, and the starts that
--            await one are part of the state.
--   Worker   sse-worker.ts, which does the work of Sse, Gate and Collect off the main thread and posts
--            batches on a timer. What it posts is a result of on_event.
--   Timeline lib/timeline-helpers.ts of the dashboard: findInsertIndex and upsertPoint on a series with
--            its index map. The search runs on fuel, the length of the series, which is enough since
--            each round makes the range shorter.
--   OrderFlow        lib/market-overview-mapper.ts and lib/secondary-overlay-series.ts: bars and metrics
--            as a series of minutes, and the patches to it.
--   EstimatedVolume  lib/estimated-volume-mapper.ts: the estimated turnover of today and yesterday.
--   Minutes  hooks/use-quote-timeline.ts, use-metric-timeline.ts and use-kbar-timeline.ts: the effects of
--            the hooks as functions on a series and its index map, which use Timeline.
--   Candle   hooks/use-participant-amplitude.ts: the candle of today from the bars of the day, and its
--            patch by the current bar.
--   Session  lib/store/auth-store.ts, features/auth/lib/token.ts, features/auth/lib/auth-page-shared.ts,
--            features/subscription/lib/entitlement.ts and app/SessionBootstrap.tsx: the store of the
--            session, the decoding of a token, and the effect that restores the session, with a
--            function for what follows each await. Session/Steps.antt has the steps that change the
--            session, in any order.
--   Guard    lib/guards/GuardedRoute.tsx as a function of the session, the path and two references.
--   Live     app/RealtimeBootstrap.tsx: the effect that calls the manager, and the steps that the
--            session and the manager take together. The other code that writes to the realtime store,
--            dashboard/hooks/use-spot-market-distribution.ts, may run at any of these steps, with any
--            data, since its query may hold data from a session before.
--   Events   the names of types/realtime.types.ts.
--   Js       the values of JSON.parse, with ===, truthiness, property reads and shallowEqual. An array
--            and an object carry the reference that === compares; a function that allocates takes the
--            first fresh reference.
--   Base     lists, signed integers, text, and association lists for objects used as maps.
--   Tests    an example of each theorem at concrete values.
--
-- A finite number is an integer count of a fixed unit (2^-1074 serves every double): the code compares
-- numbers, and where it subtracts two the difference is a parameter. A map keeps the order of insertion.
--
-- A minute of a series is a finite number, a time a whole number of milliseconds in the range of Date. A
-- Map with numbers as keys is a list of entries in the order of insertion, and an object with minutes as
-- keys is read through such a list. Array.prototype.sort is a stable sort by the key. A series is shorter
-- than 2^30, so that the halving of the search does not overflow 32 bits.
--
-- Parameters, since the code is not the repository's: JSON.parse, Date.parse, Intl.DateTimeFormat,
-- the safeParse of zod, the subtraction of doubles, atob, and the conversion of a property key to a
-- string. That an aborted request delivers neither a response nor a chunk is built into the step
-- relation, as the platform documents.
--
-- Not modelled: the branches of the manager for the mock generator and for the worker, both off unless
-- the build sets a flag; the two fall-backs of stream that read the whole body; the other React
-- hooks and the pages;
-- the services in apps/backend.
pub mod Base
pub mod Sse
pub mod Js
pub mod Events
pub mod Gate
pub mod Batch
pub mod Store
pub mod Collect
pub mod Schemas
pub mod Stream
pub mod Timeline
pub mod OrderFlow
pub mod EstimatedVolume
pub mod Minutes
pub mod Candle
pub mod Session
pub mod Guard
pub mod Live
pub mod Worker
pub mod Tests
pub mod Manager
