-- ===== src/Lib.antt =====
-- commlib-py, a Python library for publish/subscribe, RPC, actions and task queues over several brokers:
-- models of the library's own logic, with the theorems about it. Paths are from the repository's root.
--
-- The parts and the files
--   Topic: the topic notations of commlib/utils.py (topic_to_mqtt and the other conversions,
--     convert_topic_notation) in Topic/Convert, the transformation of the MQTT transport
--     (MQTTTransport._transform_topic_cached of commlib/transports/mqtt.py) there as well, and the
--     validation of commlib/pubsub.py in Topic/Validate. Topic/Text has Python's string operations on
--     lists of code points. Mqtt, Transport, Routes and Names prove what their headers say.
--   TaskQueue: commlib/task_queue.py. Types has its records and enumerations, Context the worker's
--     state and the WorkerTaskContext that on_task uses, Worker the steps of _process_task, Producer
--     BaseTaskProducer and TaskHandle. Lifecycle runs a task with the retries that its timers start,
--     and Threads interleaves the threads of a worker.
--   Action: commlib/action.py. Goal is GoalHandler with the future of its task, Service the handlers
--     of BaseActionService, Client BaseActionClient, and Run the order of requests and task ends.
--   Threads: Manager is ThreadPoolManager of commlib/thread_pool.py, with the executors of
--     BaseRPCService and BaseRPCClient in commlib/rpc.py.
--   Mock: the in-memory bus of commlib/transports/mock.py, with its Subscriber.
--   Redis: the transport of commlib/transports/redis.py. Transport has the connection of RedisTransport,
--     its start and its reconnects, with the pool of the class; Queues its queues on the server; Pubsub
--     its subscriptions and how they are restored; Rpc its RPCService and RPCClient; Tasks the queue of
--     its TaskProducer and TaskWorker; Publish its publishers, and Subscribers the callbacks of its
--     subscribers. Reconnect, Sharing, Pushes, Resubscribe, Calls, Polling and Delivery prove what their
--     headers say.
--   Rpc: commlib/rpc.py. Messages has the messages, their validation and unpacking; Comm is the object
--     that the threads of a service share; Server is the RPCServer of Redis and of MQTT, and Routing
--     says which endpoint it calls.
--   Mqtt: commlib/transports/mqtt.py. Transport is MQTTTransport with the log of what it asks of paho and
--     of what happens to its connection; Session says by which laws a broker's session follows from that
--     log, and Heard, Dropped and Start are about what is heard and how a transport starts. Rpc is
--     RPCClient and RPCService; Calls, Answers and Stale are about calls. Pubsub is its publishers, with the
--     base class of commlib/pubsub.py, and the callback of a subscriber, and Delivery what comes through;
--     Tasks is what its TaskProducer and TaskWorker publish.
--   Serial: commlib/serializer.py. Value is the conversion of Python's values before JSON, Primitives
--     JSONSerializer, and Text TextSerializer. Compression is commlib/compression.py.
--   Amqp: commlib/transports/amqp.py. Transport is the connection and the channel of AMQPTransport, over
--     the shared connections; Client is RPCClient, Service is RPCService with its acknowledgements, and
--     Consumer the loop of TaskWorker, and Subscriber how a subscriber starts and stops; Releases, Answers
--     and Serving are about them.
--   Kafka: commlib/transports/kafka.py. Transport is KafkaTransport with the loops that poll a consumer,
--     Pubsub its Publisher and Subscriber, Tasks what its TaskProducer and TaskWorker publish, and Client is
--     RPCClient with its table of pending calls and the message object that they share; Stops, Kept, Loops and Replies are about them.
--   Timer: Loop is the loop of commlib/timer.py and its events, and Links says how they follow each other.
--   Node: Endpoint is BaseEndpoint of commlib/endpoints.py, State the node of commlib/node.py with its
--     endpoints, its control services and its heartbeat. Stops, Runs and Restarts are about its life.
--   Bridges: Bridge is commlib/bridges.py, with the topics on which a bridge publishes, and Processors
--     the chains of commlib/aggregation.py.
--   Connections: Amqp and Redis are the registries of shared connections in
--     commlib/transports/amqp.py and commlib/transports/redis.py; Holders counts who holds what.
--
-- How they meet: a producer and a worker share envelopes and results (TaskQueue.Outcomes); an action
-- client and a service share goal ids and responses (Action.Polls); RPC services and clients share the
-- I/O pool of the manager; transports share connections (Redis.Sharing, Amqp.Releases); validated topics
-- reach the transports' notations (Topic.Names) and the bridges (Bridges.Topics); the two sides of a call
-- meet in the queues of the server (Redis.Calls) or on its topics (Mqtt.Answers), and so do a publisher and
-- a subscriber (Mqtt.Delivery); what a task queue sends goes through a serializer (Mqtt.Tasks); a node and
-- a bridge run and stop endpoints, each with the `stop` of its class.
--
-- Names: a definition has the name of the Python function without its leading underscore; a part of a
-- function that stands alone here has a name of its own and a comment that says which part it is. Object
-- state is a record, and a method takes and returns it. A method that may raise returns what it ends
-- with beside the state. Dictionaries are association lists keyed by numbers; ids, references and
-- connections are numbers.
--
-- The calls that a transport makes of paho or of confluent-kafka are kept in a log, the latest first, with
-- what happens to its connection; `refuses` says which of paho's calls raise, and the record Paho is the
-- interface of a broker: what its session holds after a log, and the laws it keeps. Of pika, `channels` says
-- how the n-th request for a channel ends.
--
-- An exchange with the Redis server is numbered, and `link` says whether the n-th one is answered,
-- `taken` whether a command that was not answered was carried out, and whether its error is redis-py's
-- TimeoutError, `meanwhile` what other threads do to
-- a transport while it sleeps, and `comes_up` whether an endpoint connects. A codec stands for a
-- serializer with its compression.
--
-- Parameters: the type of floats and the backoff computed on them, what on_task does at each call, what
-- publishing throws, what pydantic makes of a dictionary, how a task ends, what the clock and the
-- service answer at each poll, and the number of processors. Nothing is assumed of them but what a
-- theorem says.
--
-- Fuel: `settle` and `run_timers` count the retries that may still fire; max_retries - 1 - retry_count
-- is enough. `reconnect_loop` and `attempt_loop` count attempts: against a server that is down, one more
-- than the attempts that are left is enough, and where the server flaps no number is. A push and a wait
-- count rounds, and one is enough if the server answers. `start` of MQTT counts attempts: one more than
-- those that are refused is enough. `connect` of AMQP counts how deep its calls nest, which Python's
-- recursion limit bounds; one is enough if the channel is opened. `poll` of an action client counts calls; one
-- more than the number of the call that passes the deadline is enough.
--
-- Not modelled: logging; time stamps and the arithmetic of floats; the brokers' clients (pika, redis-py,
-- paho, confluent-kafka) and the declarations of queues and exchanges, which only call them; the loops of
-- the subscribers' own threads, but for Kafka's; the JSON library, zlib and lz4, which are parameters;
-- the asynchronous wrappers; the TCP bridge, which is socket I/O. Threads are interleaved only where a file says so.
-- A constructor `msg_type.Result()` that itself raises is left out: `empty` is its value.
mod Prelude
pub mod Topic
pub mod TaskQueue
pub mod Action
pub mod Connections
pub mod Threads
pub mod Serial
pub mod Timer
pub mod Mock
pub mod Mqtt
pub mod Redis
pub mod Rpc
pub mod Amqp
pub mod Kafka
pub mod Node
pub mod Bridges
