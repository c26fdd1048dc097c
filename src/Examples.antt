-- ===== src/Examples.antt =====
-- The properties at concrete inputs.
mod Group
mod Engine
mod Replay
mod Codec
mod Database
mod Sqlite
mod Registry
mod Server
mod Kafka
mod Client
mod KeyFile
mod Cli
mod Disk
mod NoPanic
mod Programs
mod KafkaFormat
mod KafkaLogin
mod KafkaOnce
mod RegistryMap
mod Generated
mod Wire
mod Takeover
mod KafkaServed
