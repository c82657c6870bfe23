-- ===== src/Lib.antt =====
-- GoVideo, a short-video site: a web API and a set of workers that share MySQL, redis and RabbitMQ.
-- The API writes through message queues when it can and by itself when it cannot; the workers apply
-- the messages to the tables.
--
-- Files and what they model:
-- - Prelude and its children: numbers, lists, integers, Go strings as bytes, errors as values, and
--   actions. An action takes the state of the outside world to a result and the next state.
-- - Services: MySQL behind gorm (Sql), RabbitMQ (Broker) and redis (Redis) as records of operations
--   with the laws that their documentation states; bcrypt and the JWT library (Credentials); and all
--   of them together (Platform). Every call may fail. Keeps, Ensures, Performs and Reads are rules
--   for reasoning about actions.
-- - Entities: the rows and the messages, internal/api/*/entity.go and internal/middleware/rabbitmq.
-- - Middleware/Rabbitmq: the producers of internal/middleware/rabbitmq.
-- - Middleware/SlidingWindow and Middleware/Lock: the script of the rate limit and the lock, both of
--   internal/middleware/redis/redis.go. Middleware/RateLimit: internal/middleware/ratelimit.
-- - Auth: internal/auth/jwt.go. Middleware/Jwt: internal/middleware/jwt/jwt.go; what a handler gets
--   to know of a request is an Outcome.
-- - Api/Video: internal/api/video/repo.go and popularity_cache.go. Api/Video/Service and
--   Api/Video/Tags: internal/api/video/service.go.
-- - Api/Like, Api/Comment, Api/Social: repo.go and service.go of internal/api/like, comment and
--   social. Api/Account: internal/api/account/repo.go; Api/Account/Service: service.go beside it,
--   with CreateAccount as `register` and RefreshToken as `refresh`.
-- - Api/Message: repo.go and service.go of internal/api/message. Api/Profile: service.go of
--   internal/api/profile. Api/Notification and its child Inbox: internal/api/notification/handler.go.
-- - Api/Feed: internal/api/feed/repo.go, and of service.go ListLikesCount, ListByTag and
--   the shared helpers.
-- - Api/Http: internal/apierror and what handlers share; Handler under Api/Like, Api/Comment,
--   Api/Social, Api/Message and Api/Profile: handler.go of internal/api/like, comment, social,
--   message and profile, with what they answer as a Response.
-- - Worker/Retry: internal/worker/retry.go. Worker/Outbox: internal/worker/outbox_worker.go.
--   Worker/Like, Worker/Comment, Worker/Social: like_worker.go, comment_worker.go and
--   social_worker.go of internal/worker; Worker/Popularity: popularity_worker.go.
--   Worker/Timeline: timeline_worker.go. Worker/Notification: notification_worker.go.
-- - Simulation: the services in memory, with calls that fail on demand; the tests run on it.
--
-- A component is a function of a Platform. Within one action nothing that can be seen changes but
-- by the calls of that action; other clients act between actions. Where a component hands work to
-- another through a queue, the state has a record of the publications that the message client took
-- without an error. The channels are not in confirm mode, so this does not say that the broker has
-- them; a worker's action is given the body of a message and nothing is said of where it comes from.
--
-- Times are milliseconds from the zero time and always larger than a timeout that is taken off them.
-- Counters are unbounded integers; they stay far below 2 ^ 63. A pointer that may be nil is a flag
-- or an Option. The loops are structural; `attempts` runs on fuel, and more fuel than retries are
-- left is enough. The outbox worker's `run` is told after how many ticks its context ends.
-- A lock of redis has a time to live that runs down in a step `elapse`; a call of the rate limit's
-- script may fail before or after the script ran.
--
-- Texts are compared byte by byte, where MySQL's collation may fold case. A key of redis is a
-- constructor for each format of the program. singleflight is a parameter: what a caller gets is
-- the answer of one run of the function, its own or one that started before. A Go channel is a
-- buffer and a flag; a send to a closed channel is `none`. The time line is a list in the order of
-- the scores.
--
-- Not modelled: the other handlers, HTTP binding and the writing of responses, JSON (its decoding is
-- a parameter), logging, time-outs and cancellation of single calls (a call that is cut off is a
-- call that fails), start-up and configuration, the web client.
pub mod Prelude
pub mod Services
pub mod Entities
pub mod Middleware
pub mod Api
pub mod Auth
pub mod Worker
pub mod Simulation
