-- ===== src/Topic.antt =====
-- Topic names: commlib/utils.py (conversion between protocols), commlib/pubsub.py (validation) and
-- `_transform_topic_cached` of commlib/transports/mqtt.py.
pub mod Text
pub mod TextLaws
pub mod Convert
pub mod Mqtt
pub mod Routes
pub mod Transport
pub mod Validate
pub mod Names
mod Tests
