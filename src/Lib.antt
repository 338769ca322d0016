-- ===== src/Lib.antt =====
-- The verification library of mautrix-asmux, a proxy that gives each bridge (an "appservice") of a
-- Matrix homeserver the events that are for it.
--
-- The parts, by the path of the source, and the files that model them:
--
-- - mautrix_asmux/api/as_proxy.py: Proxy.antt. A transaction of the homeserver is sorted to the
--   appservices: `collect_events` is `_collect_events`, with its loop body cut into `collect_event`,
--   `collect_in_room`, `find_target` and `to_room`; `register_room`, `collect_otk_count` and
--   `sort_transaction` (`handle_transaction` up to the sending) are named as in the source. The
--   output is a dict from the id of an appservice to its `Events`. Proxy/Sending.antt has the rest:
--   `send_transactions`, `post_events` and `handle_transaction`, with the results of the tasks, down to
--   the entry in the queue of each appservice, and Proxy/Checkpoints.antt
--   `send_message_send_checkpoints`. UserIds.antt has the user ids of bridge users,
--   `_get_az_from_user_id`.
-- - mautrix_asmux/util.py: Util.antt, the events that come from a bridge and those that are forwarded.
-- - mautrix_asmux/api/as_util.py: Events.antt (`Events`, `pop_expired_pdu`) and Events/Wire.antt
--   (`serialize`, `deserialize`).
-- - mautrix_asmux/api/as_queue.py: Queue.antt, over the interface of a Redis stream in Redis.antt.
-- - mautrix_asmux/api/as_websocket.py: Consumer.antt is the consumer of a queue, from `consume_queue`
--   down to `send_next_txn`, with its timeouts, the closing of a silent websocket and `should_wakeup`.
--   Connections.antt is `handle_ws` as a step relation on a registry of the connections of one
--   appservice, cut at its `await`s: a connection passes the test of `_stopping`, is admitted,
--   registered, replaced or closed by the consumer of its queue, and ends.
-- - mautrix_asmux/api/as_requester.py: Requester.antt, the request that is published and waits for an
--   answer in a list of Redis (`handle_request_over_redis`), `exec_command` and the answer of the
--   management API to it, the set of requests in flight, with the test and the addition as two steps,
--   and `send_transaction`. Requester/Pongs.antt
--   is what a bridge answers to a ping (`ping` of as_http.py and as_websocket.py, `migrate_state_data`
--   of as_proxy.py), and Requester/Pings.antt `request_bridge_ping` and `ping`;
--   Requester/SyncErrors.antt has the errors of the sync proxy on both instances
--   (`handle_syncproxy_error` of as_proxy.py, `post_syncproxy_error` of as_websocket.py), and
--   Requester/Wakeups.antt `wakeup_appservice`.
-- - mautrix_asmux/api/as_http.py: Http.antt, `post_events` with its retries as a list of effects, and
--   Http/Pusher.antt, the loop of `post_events_from_queue` that calls it; once the lock has expired,
--   another instance may do anything to the queue.
-- - mautrix_asmux/api/websocket_util.py: Websocket.antt, the requests and answers of a
--   `WebsocketHandler`; a future is a value of `Future`, found by the number of its request.
--   Websocket/Called.antt is `_call_handler`.
-- - mautrix_asmux/database/table/: Store.antt has the rows and the objects, Database/Azs.antt,
--   Database/Rooms.antt and Database/Users.antt the methods of `AppService`, `Room` and `User`,
--   and Database/Azs/Passwords.antt `generate_password` and `check_password`.
-- - mautrix_asmux/redis.py: Database/Azs/Calls.antt and Database/Rooms/Invalidated.antt, the invalidation
--   of what is cached.
-- - mautrix_asmux/api/management_api.py: Management.antt, the authentication and the requests on users,
--   appservices and rooms, each a function of what the middleware and the path say;
--   Management/Provision.antt, `provision_appservice`, Management/Downloads.antt, the download of a
--   configuration, and Management/Proxies.antt, `put_user_proxy`.
-- - mautrix_asmux/api/cs_proxy.py: ClientProxy.antt, `find_appservice` and the query of `_copy_data`;
--   ClientProxy/Login.antt, `convert_login_password`; ClientProxy/Passing.antt, `proxy`, `proxy_login`
--   and `_proxy`; ClientProxy/Created.antt, `_register_room_from_create`; ClientProxy/Session.antt, the
--   requests of the proxy itself and `get_user_id`; ClientProxy/DirectChats.antt, `update_dms`.
-- - mautrix_asmux/segment.py: Segment.antt, the events that are tracked and their counters.
-- - mautrix_asmux/config.py: Config.antt, `do_update` and `generate_registration`, over what
--   Config/Laws.antt takes of mautrix.util.config.
-- - mautrix_asmux/api/errors.py: Errors.antt.
--
-- How they interact: sort_transaction reads and fills the caches of the tables, and handle_transaction
-- pushes each `Events` that it makes into the queue of its appservice, in the form of Events/Wire. The
-- queue is read with `next` by the consumer of a websocket, which sends over a `Link`, or by the HTTP
-- pusher, which calls `post_events`; the entries are removed behind that. The management API changes
-- the tables through the methods of Database, and its commands go to the instance that has the
-- websocket through Requester, as pings and the errors of the sync proxy do. The client-server proxy
-- finds the appservice of a request through the same tables, and puts the rooms that it creates there,
-- so that later transactions reach it; redis.py drops from the caches what another instance changed.
--
-- State and exceptions: a method that changes the store is a function from the store to a result and
-- the store (Exec.antt), so that what was written before an exception stays written. Python objects
-- that are shared are cells of a heap, and the caches hold their numbers. A method without an `await`
-- on another task is one step; the sequences of calls in Database/Azs/Calls.antt and of inputs in
-- Websocket.antt are the orders in which such steps may come.
--
-- Bounds and fuel: numbers are natural numbers, for times, ids and counts, none of which the source
-- lets grow negative. `post_events` runs with one round more than the number of attempts as fuel; that
-- this is enough is one of the results. `handle_request_over_redis` has five attempts, the number of
-- the source, as fuel, and that it ends within them is a result as well. No other function has fuel:
-- the loops go over lists.
--
-- Taken as parameters: the settings and the parsing of a UUID (Env.antt), the serialization of the
-- types of mautrix.types (`Codec`), Redis streams (`Stream`), the union of two lists as sets in any
-- order, the outcomes of HTTP requests and of messages over a websocket, HMAC, SHA-256 and Base 32
-- (`Base32`), SHA-512, what is drawn at random, the clock, the reading of a number or of a user id from
-- a text, the replies of the homeserver, the classes of mautrix.util.bridge_state (`Library`), and the
-- configuration files of mautrix.util.config (`Paths`).
-- The database is its tables, as dicts by the primary key.
--
-- Not modelled: logging, metrics, the status reports and checkpoints of a websocket, the start and stop of
-- the sync proxy, the authentication of a websocket, the start of the program, and the schema upgrades.
-- Tracking is modelled by itself: the parts that call it are modelled
-- with it switched off.
pub mod Prelude
pub mod Dict
pub mod Errors
pub mod Result
pub mod Exec
pub mod Json
pub mod Store
pub mod Database
pub mod Env
pub mod Util
pub mod UserIds
pub mod Events
pub mod Proxy
pub mod Redis
pub mod Queue
pub mod Http
pub mod Websocket
pub mod Management
pub mod ClientProxy
pub mod Consumer
pub mod Connections
pub mod Requester
pub mod Segment
pub mod Config
mod Tests
