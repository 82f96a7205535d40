-- ===== src/Lib.antt =====
-- RayMe: live calls with AI characters. The browser talks to the web server (web-ui/server), which
-- owns threads, messages and call turns in SQLite; the AI backend (ai-backend) owns speech engines
-- and the speech worker. These modules model the state and the control flow of both.
--
-- Files and code:
--   Base            shared names, Boolean tests, lists as Python sets, association lists as dicts
--   Calls           web-ui/server/app/domain/call_service.py with the tables of
--                   web-ui/server/app/storage/models.py: Types and Rows (rows, SELECT, UPDATE, staging
--                   a message), Reserve, Record and End (the methods of CallService), Steps (the
--                   sections run under the call's locks, in any order, with writes of other
--                   processes), Pruned (the same with the deletions of
--                   web-ui/server/app/domain/thread_service.py and message_actions.py in
--                   between), and the proofs in Safety, Ended, Flow, Duplicates and Closing
--   Worker          ai-backend/app/models/tts_qwen3_protocol.py: QwenStreamEventValidator
--   Engines         ai-backend/app/models/model_manager.py (ModelManager) with the statuses of
--                   engine_metadata.py: Types (the manager's attributes), Switch
--                   (_switch_tts_engine_locked and its helpers), Prepare (prepare_tts_engine, the
--                   lease), Release (release, invalidate, readiness, shutdown, health), Runs
--                   (sequences of calls), and the proofs: Residency and Serving, Stable and Switching
--                   (what every helper keeps), Leases, Outcomes, Refused,
--                   Overtaken
--   Refusal         web-ui/server/app/domain/refusal_guard.py (PrefixRefusalGuard) in Guard, and the
--                   retry loop of web-ui/server/app/domain/llm_stream.py in Attempts; the proofs are
--                   in Released, Held and Streams; the messages of an attempt in
--                   Retries and Preserved; the ring of
--                   web-ui/server/app/domain/refusal_activity.py in Activity and Recent
--   Session         ai-backend/app/call/session.py. The speech segments of CallSession: Segments
--                   (_claim_tts_segment_locked and the calls that follow it), Attempts (the calls of
--                   all turns in any order), and the proofs in Claims, Sequence, Orderly, Granted,
--                   Single, Exclusive, Replay, Over and Late. The life of CallSession: Life (state,
--                   outbox, end), Turns (microphone turns), Transport (loss and recovery), Calls (all
--                   of these in any order), and the proofs in Outbox, Invariants, Ordered, Drain, Final, Recovery and Deaf.
--                   CallSessionManager: Manager, with the proofs in Retention
--   Prompt          web-ui/server/app/domain/prompt_builder.py: Sections, Compose (compose_prompt) and
--                   Dialogue (_parse_example_groups), with the proofs in Mandatory and Printed
--   Speech          web-ui/server/app/domain/call_tts_segments.py: Segmenter, with the proofs in
--                   Visible and Conserved
--   Messages        web-ui/server/app/domain/message_actions.py: Rows (the tables), Actions (the edit of
--                   a message, the removal of stale ones), Alternates, and the proofs in Editing and
--                   Numbering
--
-- The web server asks the backend to prepare the voice of a call (Engines) under a lease that the
-- call owns, reserves each turn before it generates (Calls), cuts the text of
-- the answer into segments (Speech) and has each spoken under a claim in the ledger of the backend's
-- session (Session); the speech worker's events reach the backend through the validator (Worker).
--
-- Conventions. Identifiers, tokens, digests and task handles are numbers, since the code only
-- compares them. Times are whole numbers (seconds in Calls), and a method reads its clock once. A
-- float of Worker is the number that its bits spell, which orders floats that are not negative, and
-- the sum of two floats, which rounds, is an argument. So is what the code asks of its
-- surroundings: whether a commit succeeds, whether a task is done, the fresh identifiers. A
-- database transaction works on a copy that is kept on commit and dropped on rollback. The loop of
-- CallTtsSegmenter.feed runs on fuel, for which the length of its buffer and one is enough, since
-- every round cuts something off, and so do the two loops of compose_prompt, for which the number
-- of sections of the history and of groups of examples and one is enough; the other loops run over
-- a list.
--
-- In Engines the answers of the adapters, of the decoder and of the transcription are arguments of a
-- call. prepare_tts_engine, the release and the invalidation share a lock, but switch_tts_engine has one
-- of its own: the switches that other requests ask for at each await of a prepare are arguments too.
-- startup is left out, since it runs once before the calls.
--
-- In Calls the row that call_turn_status reads before it takes the lock is any row at all. Steps has no
-- deletions: they are in Pruned, where the identifiers of the stale messages are given. An UPDATE that
-- nothing commits is given up with the session of its request.
--
-- In Session a step is a section under the lifecycle lock, one round of the delivery of events, or a
-- write between two awaits; what waits for an event or a task is the end of a step. The switch of peers
-- with its candidate, prompt leases, the playback of speech, the buffers of a reconnect, voice activity
-- and the clean-up of peers and tracks are left out.
--
-- In Prompt the sections of the character, the groups of examples and the order of the history are
-- arguments of compose_prompt, and so is the ceiling of the float that gives the safety margin.
--
-- In Refusal the regular expressions, Unicode normalisation and str.isspace are parameters, and an
-- attempt is the list of tokens that upstream sends; an upstream that breaks off is left out.
--
-- Not modelled: the SvelteKit client, HTTP routes and WebRTC transport, audio decoding, the neural
-- models, SQLAlchemy, and the planning probes under .planning.
pub mod Base
pub mod Calls
pub mod Engines
pub mod Messages
pub mod Prompt
pub mod Refusal
pub mod Session
pub mod Speech
pub mod Worker
