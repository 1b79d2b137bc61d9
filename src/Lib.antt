-- ===== src/Lib.antt =====
-- A Sparkplug edge node library: applications register metrics with a node and its devices, and MQTT
-- clients publish their births and changes and deliver the commands of a host.
--
-- The parts, from the inside out, and the files that model them:
--   Memory      blocks of memory, as memcmp, memcpy, strdup and C strings see them
--   Uri         src/CommonTypes.h, class Uri: init and toString; RoundTrip has the proofs
--   Tahu        the tahu library, which is not in the repository, as a record of parameters
--   Register    what a metric or a property promises: a value, and whether it changed since it was
--               last published
--   Property    src/properties: Cell is class Property, Property a plain one or a PropertySet;
--               Simple has the classes of src/properties/simple
--   Metric      src/metrics: Metric is class Metric; Simple has the classes of src/metrics/simple
--   Publishable src/Publishable.cpp and src/Device.cpp: the timer (update), the states IDLE, CAN_PUBLISH
--               and PUBLISHING, messages (addToPayload) and commands (handleCommand)
--   Clients     src/clients/SparkplugClient.cpp; Queue is src/clients/PahoClient.cpp and the same
--               methods of CppMqttClient.cpp; PahoSync, PahoAsync and CppMqtt are the three clients;
--               Accounts, Retries, Termination and Receiving are about the requests of a queue, Flow
--               and Moves about the requests that any method or callback of a client passes on
--   Node        src/Node.cpp: World is its state with its clients, Setup the constructor, topics and
--               enable, Publishing the births and data messages, Events the event queue and
--               execute, Begin the loop around it, Drivers the three clients as the interface that
--               a node uses; Topics, Commands, Misrouted and Rebirth are about topics and
--               commands, Contract says what a node relies on in its clients, and Runs, Ledger,
--               Sound and Reach follow requests through any order of calls and callbacks, as
--               Waiting does for a node that waits for its primary host, and for the end of its
--               wait, with the combinators of Only; BirthOrder is about the births, Answers and
--               Total about calls that return without a fault, and Destroying is the destructor
--   Time        src/utils/TimeManager.cpp
--   Examples    examples/cpu: Cpu is class CPU, Main the program
--   Tests       the theorems at concrete inputs
-- Definitions have the names of the functions of the source, in lower case with underscores.
--
-- How the parts interact. A metric written by the application becomes dirty. A node that executes lets
-- its clients sync, takes the events that they raised from its queue, counts down the timers, and
-- publishes what can be published: Node.Publishing.publish hands a request to the active client, whose
-- queue sends it at once or when the requests before it are done. A client builds the payload when it
-- sends, and raises an event for each delivery and failure, of which the node tells the publishable.
--
-- The model. Operations pass their state on: a Context is a client with its library, the events that
-- it raised, the publishables and the times that will be read; a World is a node with its clients.
-- `none` is a fault of the program (a NULL pointer that is followed, an exception, a read past a block)
-- or a recursion out of fuel. Values are the bytes of their object representation, texts are lists of
-- bytes. Sequence numbers wrap around at 256, and the times of a publishable are int32_t. The
-- libraries of MQTT and tahu are records of functions over a state of any type, and no theorem assumes
-- more of them than its comment says.
--
-- Fuel. A send that fails at once calls its own failure handler, which sends again: process_request
-- takes fuel for that recursion, and the sum of the attempts that the requests of the queue have
-- left is enough, six for a new request. Node.Events.process_events takes fuel for the events of
-- the queue, and their number is enough for deliveries and failures; for other events, whose
-- handlers add events, the fuel that is enough is found by recursion on the events that may
-- activate a client or bear a command, those that change the active client, and all
-- (Node.Total.Events). The loop that receives messages in PahoSync takes fuel for the messages that
-- the library hands over, and one more than it holds is enough (Clients.Receiving); CppMqtt.sync takes
-- fuel for the calls of the handler that the library makes. Node.Begin.begin is given the number of
-- rounds, and so is Examples.Main.main.
--
-- Not modelled: mutexes (each call is one step), the system's clock (times are arguments),
-- Node::nextServer (returns 0), the release of memory but for the requests that destructors give back,
-- and the application's command handlers, whose calls are written down. The options of a connection,
-- which a library reads when it connects, are part of the library's state.
pub mod Prelude
pub mod Uri
pub mod Memory
pub mod Tahu
pub mod Register
pub mod Time
pub mod Property
pub mod Metric
pub mod Publishable
pub mod Clients
pub mod Node
pub mod Examples
mod Tests
