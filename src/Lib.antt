-- ===== src/Lib.antt =====
-- The core of the LinkUp server, a Go social network backend: group calls, one-to-one calls, the
-- hub of the sockets, friend requests, group chats, challenges, payments for ad packages, and what
-- guards the requests (rate limit, authentication cache, roles).
--
-- The parts and how they interact. A client's socket is registered with the hub of ws/hub.go; the
-- services send to users through it, and when the last socket of a user is gone, a hook ends the
-- user's call (services/voice_call.service.go). Group calls have a hub of their own,
-- groupws/hub.go, which a periodic cleanup sweeps. Requests pass the middlewares of middlewares/
-- before a service.
--
-- GroupCall models groupws/hub.go. `GroupCall/Session` has the session record and the hub;
-- `Create`, `Join`, `Leave`, `Media` and `Cleanup` have the operations, each split into what it
-- does to one session and the lookup around it (`on_session`), with what it asks of sockets, store
-- and message service as a list of effects. `Machine` has one command per operation and
-- reachability. The other files of GroupCall prove: `Invariant` the invariant, `Membership` who can
-- enter, `Dropping`, `Expiry` and `Succession` the periodic cleanup, `Creation`, `Ending` and
-- `Signals` the operations named so.
--
-- VoiceCall models models/call.model.go (`Call`), the statements of repository/call.repository.go
-- on the tables (`Table`, one step per transaction) and services/voice_call.service.go (`Service`:
-- one function per method, with the sent messages as effects; friendships and connected users are
-- an environment that may differ at each step). `Row` has what holds of a row, `Machine` and
-- `Writes` the commands and what each writes, `Rows` and `Invariant` the reachable tables,
-- `Answers`, `Busy`, `Missed` and `Texts` the single methods, `Races` an overlap.
--
-- WsHub models ws/hub.go: `Channel` the channel of a client (ws/client.go), with `none` for a
-- panic, and `Hub` the operations, as `Option`s. `Sending`, `Members` and `Live` have the lemmas,
-- `Safety`, `Works` and `Steps` the commands and the theorems. A message is counted but has no
-- content.
--
-- Access models middlewares/rate_limit.go (`RateLimit`, proved in `Counting` and `Granted`),
-- utils/auth_cache.go (`AuthCache`) and middlewares/rbac.middleware.go with the roles of
-- routes/ad.routes.go (`Roles`, proved in `Strongest` and `Ownership`).
--
-- Friendship models models/friend.model.go and repository/friend.repository.go (`Table`) and
-- services/friend.service.go with validations/friend.validation.go (`Service`). `Queries` has the
-- lemmas on queries, `Invariant` and `Steps` the commands and the reachable tables, `Consent` and
-- `Pairs` what they mean for two users.
--
-- Payment models the payments for ad packages by VNPay and MoMo. `Transaction`, `Package` and
-- `Repository` have the tables of models/payment_transaction.model.go, ad_package.model.go,
-- partner_subscription.model.go and user_role.model.go with the statements of
-- repository/payment.repository.go and repository/package.repository.go; a database transaction
-- that is rolled back is `none`. `Query` is utils/vnpay.go, `Numbers` the printing and parsing of
-- int64, `Config` the configuration and the answer of a callback, `Settling` what both callbacks do
-- at their end, `Vnpay` services/payment.service.go, `Momo` services/momo.service.go and
-- utils/momo.go, `Service` services/package.service.go. Each request says which of its database
-- calls fail (`Faults`); the HMACs, the text of a time, VNPayClientIP and the answer of MoMo's
-- server are parameters. `Machine` has the commands. `Outcomes`, `Callbacks`, `Answers` and
-- `Creation` give each operation by cases, `Settled`, `Expiry` and `Finality` follow the table of
-- transactions, `Current`, `History` and `Plans` that of subscriptions, `Shop` has the abstract
-- state and the refinement, `Genuine`, `Amounts`, `Losses`, `Rounds` and `Downgrades` the other
-- theorems. Digits are printed with fuel 20, which is enough below 2 ^ 64.
--
-- GroupChat models services/group_chat.service.go. `Tables` has the rows and the statements of
-- repository/group_chat.repository.go and the check of a mute of repository/chat.repository.go;
-- `Service`, `Requests` and `Roles` the operations, with validations/group_chat.validation.go;
-- `Machine` the commands. `Changes` and `Valid` say by cases what a command does to participants
-- and bans, `Members`, `Leaders`, `Mutes` and `Races` have the theorems. The id of a new group is one that
-- no row names. GroupCall uses the groups' members as a parameter, by a list of ids.
--
-- Challenge models the challenges of communities: `Tables` the rows and the statements of
-- repository/contribution.repository.go, one step per transaction, `Service` JoinChallenge and
-- ProcessChallengePost of services/contribution.service.go, `Machine` their calls. `Sums` has the
-- lemmas on counts and sums of rows, `Valid` the invariant, `Joining` and `Posting` what keeps it,
-- `Reached` the theorem. Access and Challenge do not share roles: whether a user is a member of the
-- community comes with the call.
--
-- Base has Go's maps and sets as lists of their entries in the order of a `range`, sorting, and
-- the rows of a table by their ids.
-- Text has the code points of a string with what the parsers use of `strings`.
--
-- Identifiers are only compared and sorted, so they are natural numbers, and 0 is the empty string.
-- Times are numbers of nanoseconds (in Payment, of seconds) that come with each call; an operation
-- that reads the clock twice gets one time. Loops are structural recursions on lists, so no fuel is
-- needed.
--
-- What is one step. In GroupCall an operation that holds its lock is one step; CreateGroupCall takes
-- its lock twice, so its command is the store under the second lock, with the hub that was seen under
-- the first. A send of the sockets hub is one step, although it takes its lock twice. In VoiceCall,
-- Friendship, Payment, GroupChat and Challenge a command is a whole request, made of the statements
-- and transactions that the repository has, and requests run one after the other; a request of
-- VoiceCall may overlap with others that do not write the same row. What an overlap can do is stated
-- for two creations of a group call (`GroupCall/Creation`), for a call that is accepted while it is
-- ended (`VoiceCall/Races`), for two subscriptions (`Payment/Losses`) and for a ban while an
-- invitation is accepted (`GroupChat/Races`): there the functions for the two halves of a request,
-- as `prepare_call` and `insert_call` or `check_end` and `write_end`, run with something between.
--
-- Not modelled: the HTTP layer, JSON, the database driver and its failures, the text of messages,
-- the paged lists of calls and friends; posts, stories, messages and their delivery, accounts,
-- blocks, communities with their roles and contribution scores, locations and the sockets of group
-- calls, which have rules of their own; and the parts that only pass data between the others.
pub mod Base
pub mod Text
pub mod GroupCall
pub mod VoiceCall
pub mod WsHub
pub mod Access
pub mod Friendship
pub mod Payment
pub mod GroupChat
pub mod Challenge
