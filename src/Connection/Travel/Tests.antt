-- ===== src/Connection/Travel/Tests.antt =====
-- A message with two headers, the second of which is longer than the receiver expects.
use faststream_mq.Base.{Dict, none, List, [], ◌∷◌, codes}
use faststream_mq.Values.{Value, str_value, bytes_value}
use faststream_mq.Native.{
  Env, Event, event, Call, Answer, Reply, answered, failed, mqmi_fault, get_property, inq_first,
  inq_next, inq_prop_under_cursor, delete_handle,
}
use faststream_mq.Command.{MqPublishCommand}
use faststream_mq.Connection.State.{State}
use faststream_mq.Connection.Tests.{sample_env, sample_command}

abbrev tenant_property : Value × Value
tenant_property = (str_value (codes "t1"), str_value (codes "usr.x_dash_tenant"))

abbrev content_property : Value × Value
content_property = (str_value (codes "text/plain"), bytes_value (codes "usr.content_dash_type "))

abbrev serving : List Event → (c : Call) → Reply (Answer c)
serving log (get_property h inq_first m) = answered tenant_property
serving log (get_property h inq_prop_under_cursor m) = answered content_property
serving (event (get_property h inq_first m) r ∷ log) (get_property h' inq_next m') =
    failed (mqmi_fault 2469 10)
serving log (get_property h inq_next m) = failed (mqmi_fault 2471 0)
serving log (delete_handle h) = answered tt
serving log c = sample_env.answer log c

abbrev serving_env : Env
serving_env = record sample_env { answer = serving }

abbrev tenant_command : MqPublishCommand
tenant_command = record sample_command {
  headers = (codes "x-tenant", str_value (codes "t1")) ∷ [];
  message_type = none;
}

abbrev both : Dict Value
both =
    (codes "x-tenant", str_value (codes "t1"))
    ∷ (codes "content-type", str_value (codes "text/plain"))
    ∷ []
