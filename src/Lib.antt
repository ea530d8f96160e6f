-- ===== src/Lib.antt =====
-- The chess platform: a verification library for its rules engine and game state (Chess-Frontend)
-- and for the backend code that owns a multiplayer game and the server's life (Chess-Backend).
--
-- The parts. In the browser, `Chess-Frontend/src/engine/chessEngine.js` generates moves and decides
-- check and legality, and `Chess-Frontend/src/hooks/useChessGame.js` keeps the state of a game and
-- calls it on every click. On the server, `Chess-Backend/src/socket/gameSocket.js` takes moves and
-- results of a room and writes them in transactions through `Chess-Backend/src/models/Game.js`, and
-- `Chess-Backend/src/services/shutdown.js` gates new work and stops the process in bounded phases.
-- `Tournament.js` and `Friendship.js` of `Chess-Backend/src/models` are components of their own
-- behind the HTTP routes. `Chess-Backend/src/routes/auth.js` opens and ends sessions with the
-- tokens of `Chess-Backend/src/models/AuthToken.js`, and `Chess-Backend/src/middleware/auth.js`
-- checks them.
--
-- The files.
--   Base: lists over the native numbers, Boolean tests, integers.
--   Engine (chessEngine.js): `Engine` has boards, pieces and squares (`initBoard`, `pc`, `pt`,
--     `inB`), `Engine/Moves` `rawMoves` and `appMv`, `Engine/Check` `inChk`, `getLegal`, `hasAny`.
--     `Slides`, `Targets`, `Attack`, `InCheck`, `Frame`, `Safety`, `Kings`, `Occupied`, `Captures`
--     and `PawnSteps` are about these.
--   Game (useChessGame.js): `Game` has the state as a record, `Game/Apply` `applyMove` and
--     `finish`, `Game/Handlers` `undo`, `click`, `doPromo`, `forceEnd` and the histories of these;
--     a handler maps the state it was rendered with to the next one and its calls of callbacks.
--     `Game/Replay` has the replay of a saved game and `applyRemoteMove`, `Game/Fen` the piece
--     placement of a FEN, and `Game/FenFields` all its fields and the moves of a chess engine.
--     `Legality`, `CastlingMoves`, `Undo`, `Replayed`, `ReplayedGame`, `FenRoundTrip` and
--     `FenRestored` are about these, and so are `MoveForms`, `Soundness` and the files named
--     `Sound...`, on what every position of a game has.
--   Shutdown (services/shutdown.js): `Shutdown` has the module state, `Gates` the admission
--     guards, `Deadline` and `Phases` the bounded phases, `Sequence` the runner. Time is explicit,
--     in ms.
--   Store (models/Game.js, and the transactions of socket/gameSocket.js): `Store` has the tables
--     as lists of rows and the statements as functions on them, `Store/Finalize`
--     `finalizeGameAtomic`, `Store/Persist` `persistMoveAtomic`. An exception is `none`, after
--     which all is rolled back. `Settled`, `Once`, `Grants` and `Rated` are about a settlement,
--     `Recorded` and `Numbers` about moves, `Seats` about the second player, `Rows` about tables.
--   Rooms (socket/gameSocket.js): `Rooms` has the server's state (`activeRooms`, the tables, the
--     votes) and tasks on it, `Rooms/Build` the building and refreshing of a room, `Rooms/Join`,
--     `Rooms/Play`, `Rooms/Rematch` and `Rooms/Leave` the handlers, `Rooms/Events` histories of
--     events. A handler is one step: the tasks of a room run one after the other. `Rooms/Law`
--     states what a transaction keeps as an interface, and the files `…Keeps` carry it over to
--     handlers. `Rooms/Drain` is the drain that the room phase of a shutdown waits for,
--     `Rooms/Boot` is the rebuilding of the cache after a restart, with `RebuiltRoom`, `Snapshots`
--     and `Rebuilt` about it, and `Rooms/Chat` the chat, with `CleanChat`. `Rooms/Gate` puts the
--     accounts, the controller of the shutdown and the rooms together, as one process whose sockets
--     pass the guards and the check of their session before a handler runs; `Admitted` and
--     `Guarded` are about these.
--   Votes (services/rematchVotes.js): `Votes` has the local backend and the calls on one set,
--     `Votes/Valkey` the shared backend on a server that is an argument; `Counts`, `LocalSets` and
--     `Refines` relate them to the set that `Rooms/Rematch` uses.
--   Tokens (models/AuthToken.js): refresh tokens and account tokens; `Tokens/Rotation` and
--     `Tokens/Consumption` are about their use, `Tokens/Revoked` is about revocation over time.
--   Accounts (models/User.js, services/tokens.js, middleware/auth.js, routes/auth.js): `Accounts`
--     has the table and its statements, `Accounts/Session` the cookies and the check of an access
--     token, `Accounts/Handlers` the routes. `Versions`, `Ended` and `Keeps` carry an ended session
--     over every handler for `SignedOut`; `Granted` is about logins, `Links` about mailed links.
--   Avatars (services/avatarStore.js, middleware/upload.js, the uploads of routes/auth.js and of
--     server.js): `Avatars` has the names, `Avatars/Stores` the directory and the bucket,
--     `Avatars/Container` the test of a buffer, `Avatars/Upload` the routes; `Names`, `Png`,
--     `Stored`, `Uploaded` and `Deleted` are about these.
--   Tournament (models/Tournament.js): seats, brackets and results; `Tournament/Start` lays out
--     the first round. `Seats`, `Results`, `Stuck`, `Shuffled` and `Bracket` are about these.
--   Friends (models/Friendship.js): requests, answers and lists, each call in one step;
--     `Friends/Statements` has the same calls in the parts between which other calls come, since no
--     transaction holds them together. `Pairs` is about the parts, `Consent` about whole calls.
--
-- Bounds and fuel. A sliding piece gets eight rounds, which is enough on a board of eight rows and
-- columns. The polling loop of a shutdown gets one round more than its budget has milliseconds, and
-- every round but the last takes at least one. The doublings of `nextPow2` and the filling of a
-- bracket get as many rounds as the number that they reach, and each adds at least one. The chunks
-- of a PNG get as many rounds as it has bytes, and a chunk has twelve and more; the digits of a
-- number as many as its value and one. All other loops are structural.
--
-- What is a parameter: the library chess.js on the server (`ChessJs`), the ratings function of
-- `Chess-Backend/src/utils/elo.js`, which computes with floating point numbers, the user ids that
-- the socket adapter reports present, the columns of a stored move as a request, the random numbers
-- of a shuffle, in `Shutdown` the answers of the HTTP server, the rooms, the socket server, the
-- cache and the pool (`Deps`), in `Votes` the Valkey server (`Valkey`, whose documented behaviour
-- is `Serves`), in `Accounts` bcrypt, jsonwebtoken, the hash function and the validators
-- (`Outside`), and in `Avatars` the client of S3 (`S3`, whose documented behaviour is `IsBucket`)
-- and sharp (`Decoder`).
--
-- What is not modelled: React's rendering, mail delivery, logging, the metrics, the life of the
-- Redis clients and the set-up of Express and of its rate limits, which do I/O or call libraries,
-- the routes that only pass a call on to a model, and the columns of the tables that are only shown
-- to users. Room ids are only compared, so numbers stand for them.
pub mod Base
pub mod Engine
pub mod Game
pub mod Shutdown
pub mod Store
pub mod Rooms
pub mod Tokens
pub mod Tournament
pub mod Friends
pub mod Accounts
pub mod Votes
pub mod Avatars
