-- ===== src/Lib.antt =====
-- The court booking system: a field node and a utility node over one MySQL database, with Redis
-- between them. A client books a field alone, or a field with utilities (lighting, rackets); the
-- latter runs a two-phase commit, in which the field node coordinates and the utility node takes
-- part. Locks on slots, the log of the transactions and the availability channel are kept in Redis.
--
-- The program's parts, and where they are modelled:
--   Shared/Schemas.antt    shared/schemas.py: the enums, the requests and their validators
--   Shared/Models.antt     shared/models.py: the rows of the four tables
--   Shared/Responses.antt  shared/schemas.py: what the endpoints answer with, read from a row
--   Shared/LoggingConfig.antt
--                          shared/logging_config.py: setup_logging
--   Shared/Config.antt     shared/config.py: the settings and the two URLs
--   Shared/Db.antt         shared/db.py: the manager of the engine and of its sessions
--   Shared/RedisClient.antt
--                          shared/redis_client.py: the manager of the connection pool
--   Shared/Lifespan.antt   the start and the end of both nodes, in their main.py
--   Services.antt          what the program calls and does not implement, below
--   Locks.antt             shared/locks.py: acquire, release and the Lua script of release
--   Events.antt            shared/events.py: publish_booking_event
--   FieldNode/FieldRepository.antt, FieldNode/FieldBookingRepository.antt
--                          field_node/app/repositories/: the statements on fields and field bookings
--   FieldNode/Coordinator.antt
--                          field_node/app/two_pc_coordinator.py: prepare_all, commit_all, rollback_all
--   FieldNode/Bookings.antt
--                          field_node/app/main.py: the endpoints of fields and of single bookings
--   FieldNode/TwoPhase.antt
--                          field_node/app/main.py: create_booking_2pc; FieldNode/TwoPhase/Spec.antt
--                          says what it promises, as a verdict on the request
--   FieldNode/Recovery.antt
--                          field_node/app/recovery.py: _recover_one and run_recovery
--   FieldNode/Holds.antt   field_node/app/main.py: the holds on slots and the messages of the web socket
--   FieldNode/Socket.antt  field_node/app/main.py: ws_availability, the life of a web socket, with the
--                          task that forwards what is published
--   UtilityNode/UtilityRepository.antt, UtilityNode/UtilityBookingRepository.antt
--                          utility_node/app/repositories/
--   UtilityNode/Endpoints.antt
--                          utility_node/app/main.py: the participant's endpoints
-- A definition has the name of its function; a body that is too large for one definition is cut at
-- its `try` statements and branches, and the comment of each piece says which it is. The child
-- modules of a file (Prepare, Commit, Overlap, ...) hold the theorems about it.
--
-- A coroutine is a function from a state to a result and a state: an exception is a value, and what
-- was written before it stays written. The state of the services is abstract. `Services` is the
-- record of what the code calls: SQLAlchemy's sessions, by table; Redis; the POST from one node to
-- the other; the UUIDs and the formats of a date. `IsLawful` says what the theorems rely on, by
-- three observations of the state: the rows, the content of Redis, and whether the request's session
-- is inside a transaction. A statement that raises changes no row; a Redis command that raises may
-- have been carried out or not; a POST is lost on the way, or served with the answer lost, or served
-- and answered, or ends in the status 500. Services/Memory.antt has services in memory that meet
-- these laws, with a script for the network; the tests run the endpoints over them. Services/Up.antt
-- describes services at a time when nothing fails, Services/Steady.antt has such services in memory.
--
-- How far the model goes:
--   * A run of an endpoint is one sequence of steps. Another client's steps between them are not
--     modelled, but for what they may have left in the database and in Redis before. The calls of
--     the lock are modelled in any order, in Locks/Clients.antt, as a step relation; with the
--     check and the insert of a booking, in FieldNode/FieldBookingRepository/Clients.antt, for
--     clients of one field and one start and with a key that does not run out.
--   * A key's time to live is an argument of the calls. It does not run out during a run of an
--     endpoint; in Locks/Clients.antt it may run out at any time.
--   * A coordinator that stops between its phases is the world that `prepare_all` leaves.
--   * A date and time is an instant, a number; a price is a number of some fixed part of a cent; a
--     text is a list of character codes. The texts of the HTTP errors are an enumeration.
--   * What a column stores of a value that an endpoint writes is a parameter, for the two ENUMs
--     and for DECIMAL(6,2); so are Python's float of a stored price and json.loads. A SELECT takes
--     no row locks: `with_for_update()` changes nothing in a single run.
--   * The id of a field in a message is missing, no number, infinite, or a natural number.
--   * The lists of field bookings by creation time come from a service. Timestamps of messages and
--     of rows are left out, but for the creation time of a booking.
--   * The scan of the recovery job runs on fuel, one unit for a call of SCAN; a scan that has not
--     come back to the cursor 0 by then returns `none`.
--   * An open web socket is a list of turns: a text of the browser that is handled, or an item
--     that the task of the forwarding hears. The two share no state, so a turn is whole. How
--     `receive_text` raises in the end is an argument. That an item is heard because it was
--     published is not in the model: Redis delivers in between.
--   * A response that does not pass its validators is `none`; the endpoints' own results are rows.
--   * The loop that sleeps between two recovery runs has no end: its definition is the first
--     rounds.
--   * Not modelled: the making and the closing of the recovery job's client, what is logged, the
--     classes that no endpoint uses (TwoPCBookingResponse, ErrorResponse), the frontend.
pub mod Base
pub mod Shared
pub mod Services
pub mod Locks
pub mod Events
pub mod FieldNode
pub mod UtilityNode
pub mod Tests
