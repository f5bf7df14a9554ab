-- ===== src/Lib.antt =====
-- A model of next-call: the event socket protocol of FreeSWITCH, the queues of calls that wait for an
-- agent, the data kept of each call, the routing and dialling of calls, the voice menus, the records of
-- the telephone system, and the messages and groups of the chat.
--
-- The bytes of a socket reach the parser (src/esl/NodeESL/Parser.ts), which cuts them into frames
-- and emits events (src/esl/NodeESL/Event.ts). The connection (src/esl/NodeESL/Connection.ts) turns
-- each event into a topic and calls the functions that wait for it, and writes commands. When a call
-- begins, RuntimeDataService (src/esl/runtime-data.service.ts) stores the headers of its event, and
-- FreeSwitchCallFlowService (src/esl/free-switch-call-flow.service.ts) asks it for the numbers and
-- chooses a rule. A call that enters a queue becomes a job of QueueWorkerService
-- (src/esl/queue-worker.service.ts), which waits for its turn and looks for an agent. Meanwhile
-- CCQueueService (src/esl/ccqueue.service.ts) entertains the caller, hears of the agent who was found,
-- and bridges the two, by the commands of FreeSwitchPbxService (src/esl/free-switch-pbx.service.ts).
-- IVRService (src/esl/ivr.service.ts) runs voice menus with the same commands, and FlowBaseService
-- (src/esl/flow-base.service.ts) dials numbers, extensions and agents and hands calls to menus and queues.
-- The services under src/pbx keep the extensions, the statistics and the records of calls in tables. The
-- chat (src/chat, src/group) keeps its messages and members in tables of the same kind.
--
-- Which file models which part:
--   Base: tests, lists, texts and association lists that stand for JavaScript's.
--   Esl/Value, Esl/Value/Decimal, Esl/Uri: header values, parseInt, decodeURIComponent.
--   Esl/Event: Event; addHeader is add_header, and so on. Esl/Event/Headers is about headers.
--   Esl/Parser/Lines: _parseHeaderText, _parsePlainBody, _indexOfHeaderEnd.
--   Esl/Parser/Framing: _onData, _parseHeaders, _parseBody, _parseEvent. A run is a record of the
--     parser, the emissions in order, and if an exception ended it.
--   Esl/Parser/Rounds, Lengths, Chunks, Fields: that the recursion ends, stated lengths, chunks,
--     and the fields of a header text.
--   Esl/Connection/State, Commands, Receive: the state of a connection, the commands that it
--     writes, and handleEvent and _onEvent. A function given by a caller is a number. The fields
--     asked, answered, calls, emitted and written keep the history.
--   Esl/Connection/Show: show, the tables of the switch.
--   Esl/Connection/Fifo, Replies, Executions, Wire: replies, executions and subscriptions, frames.
--   Worker/Registry: add, getQueueByName, readyCacheBullQueue.
--   Worker/Members: the strategies, cycleFind, shuffle, getLockedMembers, and in its children what
--     they choose.
--   Worker/Job: doneInComeCall; Turns and Ends are about whose turn it is and how a job ends.
--   Runtime/State, Runtime/Calls: RuntimeDataService; Runtime/Laws is about what it gives back.
--   Route: getRoute and route; Route/Rules is about the rule that is chosen,
--     Route/Effects about what it gives.
--   Redis: RedisService (src/esl/redis/redis.service.ts); Redis/Clients is about finding clients.
--   Session: an async method, which awaits calls of other services; every call is answered by a world
--     that may also change the data meanwhile. Session/Bounds, Exact, Pairs, Values,
--     Log and Last have rules for how many calls a method makes, in which order, for what was answered,
--     and for what the method returns.
--   Ccqueue: the data of a call that waits. Ccqueue/Tips: allBusyTip, dialQueueTimeOut, timoutCheck,
--     playQueueMusic. Ccqueue/Jobs: startFindMemberJob, onJobFail, stopFindAgentJob, enterEmptyQueue.
--     Ccqueue/Dial: dialQueueMember. Ccqueue/Agents: onFindQueueMember. Ccqueue/Hangup: the hang-ups
--     of a caller who waits. Ccqueue/Ending: the handlers of dialQueue for the end of an
--     answered call. Ccqueue/Enter: dialQueue from the entry to that end.
--   Pbx/Replies: how the answers of the switch are read. Pbx/Read: uuidRead. Pbx/Digits:
--     uuidPlayAndGetDigits.
--   Ivr/Action: ivrAction. Ivr/Compare: compareValues. Ivr/Steps: waitAmoment, setChannelVar,
--     blackListAction. Ivr/Keys: playback, recordKeys. Ivr/Dial: the step that dials, of doneAction.
--     Ivr/Schedule: checkDateTime. Ivr/WebApi: webApi. Ivr/Survey: satisfaction, saveSatisfaction.
--     Ivr/Menu: doneAction, and with it the whole interpreter.
--   Records: the operations of a table as a record of operations and laws, which the services take as a
--     parameter, and BaseService (src/common/BaseService.ts); Records/Memory fills it with lists.
--     Records/Extensions, Statistics, Cdr: the services of src/pbx/services for extensions, statistics
--     of queues, and records of calls.
--   Flow: the data of a call that is dialled, and the calls of other services. Flow/Extension:
--     dialExtension. Flow/Dialout: dialout. Flow/Local: diallocal. Flow/Bridge: bridgeACall, whose
--     handlers of the second leg are cut where they await a call; Flow/Bridge/Registrations is about
--     several legs that are registered for one call.
--   Chat: the sockets of users and private messages (src/chat/chat.service.ts, events.gateway.ts), with
--     the requests of src/private-message/private-message.controller.ts that store, change or remove one.
--   Groups: createGroup, inviteGroup, joinGroup, update (src/group/group.controller.ts).
--   Tests: concrete runs.
--
-- Fuel and bounds: the mutual recursion of _parseHeaders and _parseBody runs on fuel of the
-- buffer's length; each round takes two bytes at least, and the equation of the code is
-- proved without fuel. The two loops of doneInComeCall wait for the outside world, so they run on
-- fuel, on a world that gives each round the stop events, the active jobs, the clock and what the
-- strategy of the queue reads. Texts are UTF-8 bytes where they come from a socket. Numbers are
-- natural, but for the values that parseInt returns and for limits of retries. An object of JavaScript is
-- a list of its keys in the order of insertion, which it is for keys that are neither whole numbers nor
-- __proto__; a key of the headers is taken to be neither.
--
-- The loops of the queue and of uuidPlayAndGetDigits run on fuel too. Each round but the last uses up a
-- retry, so fuel above the retries is enough; the announcement after the waiting time has no limit.
-- ivrAction counts the depth up at each step, so fuel above the depth that is left is enough. A loop
-- without fuel is pending, which is no value and no exception. diallocal runs on fuel too, one for each
-- menu that leads on to another number; the code sets no bound to these. The data of a queue are those of one
-- connection, and a text that is not set is empty where the tests do not tell the two apart.
--
-- Parameters: JSON.parse, JSON.stringify and xml2js, whose values are those of a type J in show;
-- RegExp; Math.random; JavaScript's numbers where a menu compares them; the cipher of recorded keys;
-- checkAgentCanDail and the records that the database returns; the ids that uuid draws; the parsing
-- of dates and times of day; the answers of web services and of the gateways of a tenant; the tables
-- of TypeORM, by their laws. null and undefined are both none where no test tells them apart.
--
-- Not modelled: sockets, timers, logging, the redis protocol and bull; recvEvent and recvEventTimed;
-- transfers and recordings; the records of agents, trunks, sounds and menus, which are queries; the
-- XML that the switch asks for; the users and their sign-in; the rooms and messages of groups; the
-- processes; and the web client.
pub mod Base
pub mod Esl
pub mod Worker
pub mod Runtime
pub mod Route
pub mod Redis
pub mod Session
pub mod Ccqueue
pub mod Pbx
pub mod Ivr
pub mod Records
pub mod Flow
pub mod Chat
pub mod Groups
pub mod Tests
