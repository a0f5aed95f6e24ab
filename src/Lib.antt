-- ===== src/Lib.antt =====
-- SideQuest backend: what the services of the repository do to their data.
--
-- The program is a NestJS server. Controllers hand a request, with the user that the guards let
-- through, to a service; a service reads and writes PostgreSQL through the Prisma client, part of it
-- in transactions, emits domain events, and returns a value or throws an exception that a filter
-- turns into an HTTP answer.
--
-- Parts and files (paths from the repository's root):
--   Common, and its children: notation, lists, sorting, signed differences, and text as UTF-16 code
--     units. Dates: the parts of `Date` in UTC.
--   Store: a table of the database as a record of the client's calls with their laws; Store/Rows has
--     a list of rows that meets the laws, and Store/Paging the pages that the repositories read.
--   Effects: requests as actions on a world, the exceptions they throw, and transactions.
--   Model: the rows of prisma/schema.prisma. World: all tables and the events that were emitted.
--   Events: src/modules/events/events.types.ts.
--   Gamification: src/common/gamification/xp.ts; Gamification/Titles: user-title.util.ts there.
--   Pagination: src/common/responses/api-response.ts and src/common/dto/pagination-query.dto.ts.
--   Geo: src/modules/geo/geo.service.ts.
--   Access: src/common/auth, src/common/guards and src/modules/auth/strategies/jwt.strategy.ts;
--     Guards/Viewer has tryResolveViewerUserId of src/modules/auth/auth.service.ts, and LastSeen the
--     ping of src/common/interceptors/last-seen-at.interceptor.ts.
--   Quests: src/modules/quests/quests.service.ts. Streak has computeStreak, Distance
--     sumPathDistanceMeters, Completion start, complete and finalizeQuestCompletionTx, CheckIn
--     checkInLocation, Editing create, update and delete, Ratings rate and unrate, Dto what quests
--     look like in answers, Reading list, getById, getBySlug and the categories, Reading/Nearby
--     listNearby.
--   Friendships: src/modules/friendships/friendships.service.ts and its repository; Feed has
--     activityFeed, and Lists the lists of friends and of requests.
--   Links: src/common/invite/build-register-links.util.ts.
--   Invites: src/modules/invites/invites.service.ts and its repository.
--   Auth: src/modules/auth/auth.service.ts with the calls of src/modules/users it makes.
--   Users: src/modules/users/users.service.ts, with getStats in Users/Stats.
--   Businesses: src/modules/businesses; Windows has business-period.util.ts, and Portal the figures
--     of the partner portal with the queries of business-portal.repository.ts.
--   Map: src/modules/map/map.service.ts.
--   Leaderboard: src/modules/leaderboard, the service and the queries of its repository.
--   Stats: src/modules/stats; Stats/Cache has the cache of the public figures.
--   Achievements: src/modules/achievements/achievements.service.ts, with parseCriteria in Parsing.
--   Notifications: src/modules/notifications/notifications.service.ts and its repository.
--   Schedules: src/modules/schedules/streak-rollover.service.ts.
--   Requests: the requests that write, the ping of presence, the events at the listeners and the
--     nightly job, as a sequence of steps.
--   Filters: src/common/filters/global-exception.filter.ts.
--   Tests: examples on a small world.
--
-- How the code corresponds: a method becomes a function with its name in snake case that returns an
-- action; a `throw` is `throw`, `or_throw` or `throw_if`; `await` is a step of a do block, in the
-- order of the code; an event is appended to `emitted`. Code outside the repository is a parameter:
-- the tables (`Database`), `$transaction` (`Transactions`, all writes or none), the floating-point
-- numbers (`Float`), argon2 and the JWT service (`Crypto`), the Unicode tables (`TextMethods`), the
-- text functions of PostgreSQL (`SqlText`), its search (`ilike`), the order of its texts
-- (`collation`) and its `numeric`. A query in SQL or by `findMany` is read as a condition, an order
-- and a part of the rows found.
-- Identifiers and tokens that the database or the platform makes up are arguments.
--
-- Choices: an identifier is a number, since the services only compare it; a date is its time in
-- milliseconds; one request has one time, `now`; `Math.floor(Math.sqrt(xp / 100))` is the exact
-- integer root, found by a search with fuel equal to its argument, which the root never exceeds. XP
-- and counts are whole numbers without an upper bound, where PostgreSQL has 32 bits. Requests run one
-- after another: races between two requests are not modelled, except that a transaction is atomic.
--
-- Assumed: a transaction does not fail by itself, so the timeouts and write conflicts that the client
-- can report (P2028 and P2034, which the filter answers with 500) do not occur; and the user of a
-- request is one that the guard found, so that the foreign key of a rating to that user holds.
--
-- Not modelled: the framework's guard that limits the rate of requests (ThrottlerGuard); the push of
-- notifications, uploads, health checks, controllers and configuration; the column `updatedAt`;
-- logging; validation of request bodies by decorators.
pub mod Common
pub mod Gamification
pub mod Pagination
pub mod Store
pub mod Effects
pub mod Model
pub mod Geo
pub mod World
pub mod Events
pub mod Access
pub mod Quests
pub mod Friendships
pub mod Links
pub mod Invites
pub mod Auth
pub mod Users
pub mod Dates
pub mod Leaderboard
pub mod Stats
pub mod Businesses
pub mod Map
pub mod Filters
pub mod Achievements
pub mod Notifications
pub mod Requests
pub mod Schedules
mod Tests
