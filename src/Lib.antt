-- ===== src/Lib.antt =====
-- The JavaScript of IoT_Midterm_Availability_MQTT: the publisher web client (publisher_client/) of
-- a highly available MQTT system for campus events, and the monitoring client (client/).
--
-- The publisher sends camera events to its primary edge broker. It learns the Connection Table
-- (CT) of all nodes from the core, picks another broker when the primary is lost, queues events
-- while it is offline, and goes back when the table shows the primary online again.
--
-- Files. Base holds shared names: Boolean tests, lists, integers, and Base/First what a search in
-- a list answers. Js models what the program uses of the language: Js/Number the numbers of JSON
-- (a finite double is a whole multiple of 2^-1074, so that comparing doubles is comparing
-- integers), Js/Value the values that JSON.parse builds with truthiness and ===, Js/Text and
-- Js/Scan string operations, Js/Url what new URL answers.
-- Publisher/Ct is the table as the publisher reads it; Publisher/Selection is
-- publisher_client/src/mqtt/ctFailover.js, function by function, and its children prove what is
-- chosen, Selection/Accepted and Selection/Primary when a table is stored and which edge is the
-- primary; Publisher/Brokers is publisher_client/src/mqtt/failover.js, and Brokers/Candidates
-- proves what it lists, with Brokers/Parts about the splitting; Publisher/Message is
-- publisher_client/src/mqtt/message.js; Publisher/Uuid is publisher_client/src/utils/uuid.js.
-- Publisher/Hook is publisher_client/src/hooks/usePublisher.js: State the refs and React state,
-- Queue, Connection and Delivery the callbacks, Step all events as one step function. The MQTT
-- library is outside: its events arrive as steps in any order, its calls are recorded in the
-- state, and a publish callback runs at most once. The environment may fire a timer or a callback
-- at any time, which includes every real schedule.
--
-- Client/Parsers is client/src/mqtt/parsers.js, Client/Visibility
-- client/src/mqtt/topologyVisibility.js, Client/Failover client/src/mqtt/failover.js, each
-- function by function. Client/Hook is client/src/hooks/useMqtt.js: State its refs and React
-- state, Updates the functions that the handlers share, Messages the handlers of the five kinds of
-- topic, Step all events as one step function. Hook/Moves splits every step into a few moves, and
-- Hook/View and Hook/Feed prove invariants for the moves; Hook/Versions is about the version
-- guard, Hook/Redelivery about messages that come twice, Hook/LastWill and Hook/Failover about the
-- loss of a core.
-- Client/Transitions is client/src/mqtt/nodeTransitions.js. Client/Graph is
-- client/src/components/topologyGraphModel.js: Graph the classes of nodes and links, with
-- Graph/Links and Graph/Roles about them, Graph/Layout the hash and the positions with
-- Layout/Places and Layout/Distinct about them, Graph/Joined the links with Joined/Ends, Entries,
-- Gathered, Simple, Times and Complete about them: Ends says which links are drawn and in which
-- direction.
-- Client/Endpoint and Client/Presentation are client/src/mqtt/nodePresentation.js: Endpoint the
-- addresses and the comparison of nodes, Presentation the aliases and the names; Endpoint/Address,
-- Endpoint/Order, Presentation/Aliases, Presentation/Numbers and Presentation/Sorted are about
-- them. Client/EventText and Client/EventView are client/src/mqtt/eventPresentation.js, with
-- EventText/Delay and EventView/Source; Client/Snapshots is client/src/mqtt/eventSnapshot.js, with
-- Snapshots/Kept. Client/Page is what client/src/App.jsx computes, Page/Actions the handlers of
-- its inputs and buttons, Page/Incidents its texts, Page/Aliases and Page/Dialog the dialog of the
-- aliases; Client/Drawing is what client/src/components/TopologyGraph.jsx hands to the graph
-- library, with Drawing/Elements, and its timer, with Drawing/Redraw. Client/Collation is a
-- concrete order of texts for examples.
-- Publisher/Panel is what publisher_client/src/App.jsx does with the hook, Panel/Actions its
-- inputs and buttons, with Panel/Spaced and Panel/Runs; Publisher/Camera is the motion detector of
-- publisher_client/src/components/CameraView.jsx.
-- Array.prototype.sort is Base/Sort, a stable insertion sort by a comparator; Base/Compare has
-- what a comparator answers and the laws of an order, and Base/Maps and Js/ValueMap the maps with
-- keys that are texts and values.
-- What the client uses of the language stands in a record of parameters, Env: the text of a
-- number, new URL, toLowerCase, JSON.parse and Date.parse. A set or a map that the hook keeps is a
-- list with its newest element first. The effect of React that makes a client is an event of its
-- own, since a handler sees the broker's URL of the last effect. The views take theirs in the
-- records Locale (Number of a text, localeCompare), Dates and Doubles (rounded sums and quotients,
-- toFixed).
--
-- Bounds and fuel. There is no fuel but in the decimal printing of a number, where the number
-- itself bounds its digits. Clock readings are natural numbers.
--
-- Not modelled: markup and style sheets in the .jsx files, the writing to the storage, the graph
-- library, the C++ brokers, MQTT.js, the URL parser (a parameter), JSON text (values stand for it,
-- so a stringified message is the message), and topics outside the client's five. In the publisher
-- an entry of the table's nodes or links that is null is left out: the source raises a TypeError
-- there. Identifiers are compared by === on primitives; an object as an identifier equals nothing.
-- The library may run the callbacks of pending publishes while a client is being ended; in the
-- model they are events of their own.
pub mod Base
pub mod Js
pub mod Client
pub mod Publisher
