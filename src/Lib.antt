-- ===== src/Lib.antt =====
-- A model of the AI customer support platform (backend/app): who may do what, who gets a
-- conversation, when an answer is due, and what the support agent sends without a human.
--
-- The parts and their files:
--   Prelude     Boolean tests, lists, tables and texts that all parts share.
--   Auth        backend/app/modules/auth/permissions.py: permissions, ranks and the rank guards.
--   Users       backend/app/modules/users/service.py: `UserService`; it asks Auth for each guard.
--               Users/Service is the model, the other files its laws.
--   Domain      backend/app/infrastructure/database/models.py and the enums of the SLA and AI modules:
--               the rows, the database `Db` and the events published so far.
--   Assignment  backend/app/modules/assignment/application/service.py: `AssignmentService`.
--               Rotation is the choice of an agent, Writes the single writes, Service the methods;
--               the other files are laws.
--   Hours       backend/app/modules/business_hours: Calendar is the schedule and local time,
--               Service is `BusinessHoursService`; Elapsed measures open time.
--   Sla         backend/app/modules/sla/application/service.py: `SLAService`, which asks Hours when a
--               timer is due; `run` makes any calls in order.
--   Ai          backend/app/modules/ai: State is domain/schemas.py, Policy and Draft are
--               application/response_policy.py, Confidence and Escalation the files of those names,
--               Agent the pipeline of graphs/support_agent.py that runs them in order.
--   Conversations  backend/app/modules/conversations/service.py: Control is `takeover` and
--               `return_to_ai`, Update is `update_conversation`; they call Assignment and Sla.
--   Tokens      backend/app/modules/auth/security.py and widgets/visitor_token.py: Service; Roundtrip
--               is their law.
--   Notifications  backend/app/modules/notifications/application/service.py: Service is
--               `NotificationService`; Delivery and Defaults are its laws.
--   Tags        backend/app/modules/tags/application/service.py: `TagService`. Service is the methods
--               that write, Listing those that list; the other files are laws.
--   Teams       backend/app/modules/teams/service.py: `TeamService`, on the users of Users and the
--               rows of Domain; Steps follows any calls.
--   Automation  backend/app/modules/automation/application: Values and Conditions are
--               condition_service.py, Execution is execution_service.py with event_handler.py; Meaning,
--               Runs and Cascade are their laws.
--   Widgets     backend/app/modules/widgets: RateLimit is rate_limit.py, `SlidingWindowRateLimiter`,
--               DomainGuard is domain_guard.py, `host_matches_allowlist`; Window and Allowlist are
--               their laws.
--
-- How the code is read. A method takes the database, or the rows that it works on, to the new one
-- with its value. A raised error of the user service is a value without a state, since the request's
-- transaction is rolled back. Identifiers are UUIDs, read as the numbers that their canonical texts
-- stand for. Text is a list of ASCII code points. Times are microseconds; local time is one number
-- whose day 0 is a Monday. A score of the agent is a number of ten-thousandths, since its steps use
-- the order of scores alone.
--
-- Parameters: the conversions between UTC and local time, the password hash, the identifiers of
-- new rows, the match of a team's name, whether the database accepts a conversation's row (foreign
-- keys and lengths), `jwt.encode` and `jwt.decode`, what the language model and the search return,
-- the search of a message for a request for a human, the weighted float sum of the confidence and
-- the format of a score, the collation of the database, Python's `float`, and an automation's
-- context and action handlers.
--
-- Bounds: `add_business_minutes` runs on the source's own limit of 10,000 rounds, and its theorem says
-- how many days that must cover; `next_open_time` on the source's 366 days. The nesting of events
-- within the automations runs on fuel, and three levels are enough. All other recursion is on lists
-- and trees.
--
-- Not modelled: the delivery of the events of Assignment and Conversations, whose handlers run in
-- sessions of their own (an event is appended to `events`); what a call published before it
-- raised; what the actions of automations do; the fallback to the AI configuration where an
-- organisation has no business hours; queries that only list rows; the graph engine that runs the
-- agent's steps when it is installed; the trace, the citations and the prompt version of a run;
-- the other modules of the backend and the frontend.
pub mod Prelude
pub mod Auth
pub mod Users
pub mod Domain
pub mod Assignment
pub mod Hours
pub mod Sla
pub mod Tags
pub mod Teams
pub mod Automation
pub mod Tokens
pub mod Notifications
pub mod Ai
pub mod Widgets
pub mod Conversations
