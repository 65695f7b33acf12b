-- ===== src/Registration/Specification.antt =====
-- subscriber/specification.py and publisher/specification.py: what the documentation of an
-- application says of its subscribers and publishers.
use faststream_mq.Base.{Text, Option, none, some, ◌++◌, codes, [], ◌∷◌}
use faststream_mq.Registration.{
  Object, MqSubscriberSpecificationConfig, MqPublisherSpecificationConfig,
}

-- `SubscriberSpec` and `PublisherSpec` of faststream, with the name that they are listed under
pub record ChannelSpec : Type 0 where
  pub name : Text
  pub address : Text
  pub description : Option Text
  pub message_title : Text
  pub payload : Object

-- `MQSubscriberSpecification.channel_labels[0]`
abbrev pub channel_label : Text → MqSubscriberSpecificationConfig → Text
channel_label prefix c = prefix ++ c.queue.name

-- `MQSubscriberSpecification.get_schema`; the name, the description and the payloads are those of
-- faststream
unfoldable pub subscriber_schema :
    Text → MqSubscriberSpecificationConfig → Text → Option Text → Object → ChannelSpec
subscriber_schema prefix c name description payload = record {
  name = name;
  address = channel_label prefix c;
  description = description;
  message_title = name ++ codes ":Message";
  payload = payload;
}

-- `title_` if it is not empty, and else the default
abbrev title_or : Option Text → Text → Text
title_or none default = default
title_or (some []) default = default
title_or (some (c ∷ t)) default = c ∷ t

-- `MQPublisherSpecification.name`
unfoldable pub publisher_name : Text → MqPublisherSpecificationConfig → Text
publisher_name prefix c = title_or c.title (prefix ++ c.queue.name ++ codes ":Publisher")

-- `MQPublisherSpecification.get_schema`
unfoldable pub publisher_schema : Text → MqPublisherSpecificationConfig → Object → ChannelSpec
publisher_schema prefix c payload = record {
  name = publisher_name prefix c;
  address = prefix ++ c.queue.name;
  description = c.description;
  message_title = publisher_name prefix c ++ codes ":Message";
  payload = payload;
}
