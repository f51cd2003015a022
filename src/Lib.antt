-- ===== src/Lib.antt =====
-- A verification library for sukko, a multi-tenant WebSocket platform (the Go module under ws/).
--
-- A publisher or a subscriber reaches the platform through the gateway, which decides by the
-- tenant's channel rules who may use a channel. A publish goes to the WebSocket server, whose
-- Kafka producer finds the topics of a channel by the tenant's routing rules, writes one ingress
-- topic and copies the message to egress topics. The rules are validated by the provisioning
-- service before they are stored, and normalised when they are read back. The history of a channel
-- is addressed by positions that encode a partition and an offset.
--
-- The files and the code they are about:
--   Common         shared types and lemmas: Boolean tests, lists, sets as key lists, maps as
--                  association lists, results, signed integers, byte strings (strings.Split, Join,
--                  Cut, HasPrefix, HasSuffix) and numbers as text (strconv)
--   Routing        ws/internal/shared/routing/constants.go: NormalizePattern, MatchRoutingPattern
--   Topics         ws/internal/provisioning/topic_routing.go: the validation of routing rules and
--                  the two sets of topics; scanRows of repository/routing_rules.go
--   Kafka          ws/internal/server/kafka/producer.go: Publish, doProduce, resolveTargets;
--                  ChannelTopic of server/backend/kafkabackend/kafkabackend.go; BuildTopicName and
--                  MessageID of ws/internal/shared/kafka
--   History        ws/internal/server/history/codec.go: EncodePos, DecodePos
--   Channels       ws/internal/shared/auth: pattern.go, channel.go, channel_tenant.go
--   ChannelRules   ws/internal/shared/types/channel_rules.go
--   Permissions    ws/internal/gateway/permissions_tenant.go and the resolver of
--                  ws/internal/shared/auth/placeholders.go
--   Subscriptions  ws/internal/server/connection.go: SubscriptionSet, SubscriptionIndex
--   License        ws/internal/shared/license: edition.go, features.go, limits.go, manager.go and
--                  reload.go
--   Connections    ws/internal/gateway/tenant_connections.go: TryAcquire and Release of many
--                  goroutines, one atomic operation a step
--   Revocation     ws/internal/shared/provapi/revocation_stream.go, with the connection registry and
--                  the revocation handling of ws/internal/gateway, and the store of
--                  ws/internal/provisioning/revocation/store.go
--   Replay         ws/internal/server/replay_shared.go: authorizeLastPos and recoveryOutcome
--   Tenants        ws/internal/provisioning: service.go and lifecycle.go over the statements of
--                  repository/tenant.go, key.go and api_key.go. An operation is one step from a
--                  World to a World, in an Env that says which calls of the database and of
--                  Kafka fail; Tenants/History runs sequences of them
--   Webhooks       ws/internal/webhook/worker: cache.go, runner.go and the gate of delivery.go. A step
--                  is one turn of the loop of a worker, of which Webhooks/Drain shows how many are
--                  enough
--   Broadcast      ws/internal/server/broadcast.go, with the part of pump.go that writes to a client:
--                  the fan-out, sequence numbers, gap notifications and slow clients
--   Guard          ws/internal/server/limits/resource_guard.go: ShouldAcceptConnection and
--                  ShouldPauseKafka
--
-- How the code is rendered. A Go string is the list of its bytes; a map is an association list,
-- read at its first entry, and a set the list of its keys. An error is its sentinel, without its
-- text. Logs and metrics are left out. Regular expressions are written out as tests of bytes. Loops
-- are structural recursion; the printing of numbers has fuel, one more than the number, so that a
-- digit remains for every step, and the webhook worker runs for a list of turns. A state is a record
-- that a handler takes and returns. What a lock makes atomic is one step. The provisioning service
-- has no lock; a call of it is one step all the same, so that a theorem about histories is about
-- calls that do not overlap, and the limit of tenants, which Tenants/EditionLimit bounds for calls
-- that do, is the exception.
--
-- What is outside. The Kafka client, the circuit breaker, the database and the verification of
-- signatures are arguments. Some theorems have hypotheses on them, which they name: that Kafka
-- creates only topics that are not there and carries out deletions, that the calls for keys work,
-- and that the start of the service can scan and count. The reading of sockets, the HTTP and gRPC
-- handlers, the SQL, the metrics and the command-line programs are not modelled.
pub mod Broadcast
pub mod ChannelRules
pub mod Channels
pub mod Common
pub mod Connections
pub mod Guard
pub mod History
pub mod Kafka
pub mod License
pub mod Permissions
pub mod Replay
pub mod Revocation
pub mod Routing
pub mod Subscriptions
pub mod Tenants
pub mod Topics
pub mod Webhooks
