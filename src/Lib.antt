-- ===== src/Lib.antt =====
-- Fuel monitoring: the Python side of a platform that measures fuel tanks and dispenses fuel by code.
--
-- The parts. An edge gateway (firmware/) polls sensors over Modbus, keeps frames while the broker is
-- away, and obeys commands. The platform (platform/fmp/) turns readings into alarms, watches for silent
-- devices, notifies, relays commands to the gateways, and settles dispenses by code. The services share
-- the database and Redis: the consumed codes, the locks, the open alarms, the command queues, the denied
-- tokens and the tank cache are in Redis, and a settlement or a sweep writes both. An uploaded sheet
-- makes the allocations and the codes that the dispense engine settles, and the dispatcher sends them.
-- Acknowledgements of commands come back through the ingestion service and end the work of the relay.
--
-- The files, with the code each is about.
--   Prelude: library names, Boolean tests, lists on native numbers, text, dictionaries, bytes.
--   Redis: the commands in use as an interface with laws, `rate_limit` of platform/fmp/core/redis.py,
--     and an in-memory server that satisfies the laws.
--   Security: generate_secure_code, hash_code, verify_code and code_fingerprint of
--     platform/fmp/core/security.py. HMAC and PBKDF2 are parameters.
--   Dispensing/Models, Keys: platform/fmp/models/dispensing.py and platform/fmp/schemas/dispensing.py,
--     and the Redis keys. Generator: platform/fmp/services/dispensing/code_generator.py.
--   Dispensing/Engine: platform/fmp/services/dispensing/dispense_engine.py. Lookup has _lookup_code and
--     _find_existing_txn, Validation validate_code, Settlement and Completion complete_dispense with
--     its lock, Audit audit_totalizer. A function that branches has a helper for each branch.
--   Dispensing/Rows, Inversion, Settled, Soundness, Replay, Outcomes, Leftover, Admission, Discrepancy:
--     lemmas on the tables, and the proofs about the engine.
--   Dispensing/Excel: platform/fmp/services/dispensing/excel_ingestion.py, the checks of a row; its child
--     Batch is ingest_excel. Runs, Inserts, Issue, Sheet, Count, Owners and Valid have the proofs, Bench
--     the stand-ins of the tests.
--   Auth: Tokens, Denylist and Passwords are the rest of platform/fmp/core/security.py, with the denylist
--     of platform/fmp/core/redis.py and platform/fmp/core/device_auth.py. Login and Sessions are
--     platform/fmp/services/auth.py, platform/fmp/api/v1/auth.py, platform/fmp/api/deps.py and
--     platform/fmp/core/tenancy.py. Revocation, Rotation, Guessing and Passwords/Keys have the proofs.
--   Ingestion: platform/fmp/ingestion/main.py. Intake is the queue and its flusher, with
--     metrics_counters.py and batch_writer.py beside it; Resolve the search for a tank, with cache.py;
--     Acks the acknowledgements, Heartbeats the heartbeats, DeadLetters the ring of rejected frames.
--     Routing is _route, which calls them. Accounting, Mixing, Settling, Counted and Exact have the proofs.
--   Alarms: platform/fmp/ingestion/pipeline.py. Rules has _is_violated and evaluate_alarm_rules, Table
--     the alarm rows of platform/fmp/models/tank.py, Frame _resolve_cleared and the alarm part of
--     IngestionPipeline.process; Open, Switch and Runs have the proofs. Manual is what a user does to an
--     alarm, platform/fmp/api/v1/alarms.py, with its proofs in Silence.
--   Firmware/Modbus: firmware/modbus_rtu.py. Firmware/Commands: firmware/commands.py.
--     Firmware/Buffer: firmware/frame_buffer.py. Firmware/Loop: a turn of the duty cycle of
--     firmware/main.py. Firmware/Mqtt: the packets of firmware/mqtt_client.py, Framing and Incoming the
--     proofs. Firmware/Bits: laws of the bit operations.
--   Relay: Queue has the queues and the loop of platform/fmp/ingestion/relay.py, Rows _mark_sent and
--     the sweep of platform/fmp/workers/tasks/commands.py; Topics the topics of both sides;
--     Issue issue_command of platform/fmp/api/v1/iot_gateways.py. Flow, Sweep, Final, Inverse and Revived
--     have the proofs.
--   Stale: platform/fmp/workers/tasks/telemetry.py. Alarm has _raise_or_clear, Devices the sweep.
--   Notify: Rules is platform/fmp/services/notifications/rules.py, Dispatcher the delivery of codes and
--     Smpp the transmitter of platform/fmp/services/notifications/dispatcher.py, the latter on bytes.
--   Each Tests module runs the definitions on small inputs and applies the theorems there.
--
-- Conventions. A database table is a list of records, a commit the new list; a query that takes one row
-- says what it does on more. Ids are numbers, text is a list of code points, a time is in seconds.
-- Litres are whole millilitres, as `round(x, 3)` stores them, and a dispense request holds microlitres
-- before that rounding; an alarm reads micrometres and decilitres. Random draws, new ids, the clock, the
-- answers of the broker and of message providers, and what other clients of Redis do during a wait are
-- arguments. An exception is a value of a result type, and Redis writes before it stay. A write to Redis
-- after the commit of a settlement may raise; elsewhere in the dispense engine Redis is taken to answer.
-- The messages that reach a gateway while a publish waits for its acknowledgement are taken after the
-- reading of the turn, or before a publish raises, and those of the poll at the poll; the publish of
-- an acknowledgement fails by an OSError or not at all.
--
-- Fuel. The lock loop runs its 50 attempts and the code generator its five, as the source bounds them.
-- The start of the relay moves one frame per round, so the length of the list is enough; the reader of
-- the frame buffer takes a character at least per chunk, so the length of the text is enough. The
-- encoder of an MQTT length divides by 128 in each round, so n + 1 rounds are enough for n.
--
-- Not modelled: row locks and isolation of the database, floats (so the physics of the telemetry), logging,
-- the other HTTP routers and the reports, which are queries and serialization, the sockets of the MQTT
-- client and the sensor drivers of the gateway, the readers of spreadsheets, the WhatsApp, mail and
-- webhook senders, the scripts and the web client. PyJWT, PBKDF2, base64 and the functions of Python's
-- str and float on whole texts are parameters, with their documented behaviour as laws. A station's code is not checked against
-- the schema's six to eight digits before the engine sees it.
pub mod Prelude
pub mod Redis
pub mod Security
pub mod Dispensing
pub mod Alarms
pub mod Firmware
pub mod Relay
pub mod Stale
pub mod Notify
pub mod Auth
pub mod Ingestion
