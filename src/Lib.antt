-- ===== src/Lib.antt =====
-- Trax OS, a self-hosted travel planner: the logic of its web application and of its API client.
--
-- The journey feature (apps/web/src/features/journeys) keeps all data of a workspace in one value,
-- `JourneyData`: journeys, the segments of their timelines and the items of their packing lists. The
-- pages call pure operations, which check a form, throw an error or return the next value.
--   * Journeys/Domain.antt is domain.ts: the types, `validateJourney`, `validateSegment`,
--     `validatePacking`, `segmentsForJourney`, `packingForJourney` and `packingProgress`.
--     Journeys/Format.antt is the tests of dates and timestamps at the end of that file, and
--     Journeys/Stored.antt is `parseJourneyData`, over the values of Common/Json.antt;
--     Stored/Encoding.antt writes the data as such a value.
--   * Journeys/Service.antt is journey-service.ts: Service/Base.antt has the runtime, the errors
--     and the assertions, Service/JourneyOps.antt, Service/SegmentOps.antt and
--     Service/PackingOps.antt have the operations. `throw` is the error of a `Result`; the id
--     generator and the clock are the argument `Runtime`.
--   * Journeys/Invariant.antt says when the data is well formed; its children treat one operation
--     each, and Invariant/Steps.antt runs of operations. Journeys/Order.antt is about the order
--     of a journey's segments as a list of ids, Journeys/Positions.antt about renumbering,
--     Journeys/Validation.antt, Journeys/Packing.antt and Journeys/Cascade.antt about the
--     validators, the packing list and the deletion of a journey, Journeys/Returning.antt about
--     when an operation throws.
--
-- The web application keeps the data on the server (apps/web/src/adapters), by requests through the
-- API client.
--   * Repository/Errors.antt is the errors of apps/web/src/repositories/journey-repository.ts and of
--     packages/api-client/src/client.ts, and `repositoryCall` of http-journey-repository.ts.
--     Repository/Rows.antt is `journeyFrom`, `segmentFrom` and `packingFrom` of that file, over the
--     values of Common/Json.antt, and Repository/Requests.antt its bodies and tests of change.
--   * Repository/Plan.antt is the list of calls that `save` makes, which depends only on the data
--     before and after; Repository/Saving.antt makes them, with the retry of updates of journeys,
--     and is `load`. Repository/Actions.antt has the state of the class and the monad of its methods.
--     The API client, the source of command ids and `JSON.stringify` are arguments.
--   * Repository/Replay.antt says what a call asks of the server for the row of one id, and
--     Repository/Reordering.antt what a call asks for the order of a journey's segments.
--
-- The API client (packages/api-client/src) negotiates versions before its first call.
--   * ApiClient/Negotiation.antt is negotiation.ts: `negotiateContract`, `negotiateRange` and the
--     checks of the server's metadata. The generated table of what the client supports is an
--     argument.
--
-- The synchronization harness (spikes/powersync/harness/src) sends commands from a replica on a
-- device to a server.
--   * Harness/Protocol.antt, Harness/Format.antt, Harness/Envelope.antt and Harness/Reply.antt are
--     command-protocol.ts: the commands and results, the forms of ids, `parseCommandEnvelope` and
--     `parseCommandResponse`. Harness/Upload.antt is the body that `uploadData` of client.ts sends.
--   * Harness/Database.antt, Harness/Server.antt, Harness/Rows.antt and Harness/Execution.antt are
--     `executeCommands` of command-server.ts and what it calls: the tables are lists of rows, a
--     call is one transaction, which gives the next tables and a response, or throws. The hashes,
--     `Buffer.from`, `ps8_now` and `ps8_replica_reset_required` are the argument `Platform`.
--     Harness/Reset.antt is the reset of a replica's credential and its acknowledgement,
--     Harness/Limits.antt its slots of concurrent requests and the attempts that it records,
--     and Harness/RateWindow.antt its limit of requests per minute.
--   * Harness/Queue.antt is `validateQueuedCrud` of client.ts and the entry that `queueCommands`
--     makes, Harness/LocalState.antt is its `ApplicationState`, with the tables as lists, and
--     Harness/Uploading.antt is its `uploadData`, over a queue and answers that are arguments, as is
--     what the database makes of a result with a value that is no text.
--   * Harness/History.antt runs transactions between the steps of other writers, and
--     Harness/Exchange.antt hands the server's answer to the client's parser.
--
-- Common.antt and its children hold what JavaScript provides and the code uses: strings with
-- `trim` and their order by code units, the values of `number`, a stable `sort`, `Map`, `find`
-- and `findIndex`, and thrown errors as results. Numbers in the data are integers, save that a
-- form's quantity and an item's packed quantity may be any number; sums of numbers that are no
-- integers are an argument. Everything is structural recursion, so there is no fuel.
--
-- `Date.parse` is the platform's, and is the parameter `date_parses`. Not modelled: the views, the
-- other HTTP adapters and the locale's entry in localStorage, the calls of the API client, the
-- generated client, the rest of the harness (the registration of replicas and their challenges,
-- tokens, the script of its client and the evidence), and the API server, which is in another
-- language; Repository/Replay.antt takes of it that a journey is deleted with its segments and items,
-- that a journey is made in planning and an item with nothing packed, that an item's quantity bounds
-- what is packed of it, and that a packed quantity that is not from 0 to the quantity is refused.
pub mod Common
pub mod Journeys
pub mod Repository
pub mod ApiClient
pub mod Harness
