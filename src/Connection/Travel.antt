-- ===== src/Connection/Travel.antt =====
-- The headers that a publication sets are the headers that its receiver reads.
pub mod Tests
use faststream_mq.Base.{
  zero, suc, sym, Bool, false, none, some, insert, lookup-insert, or_else, if◌then◌else◌, inl, inr,
}
use faststream_mq.Errors.{Result}
use faststream_mq.Exec.Hoare.{run-cases}
use faststream_mq.Exec.{pure, raise, if_some}
use faststream_mq.Native.{
  Reply, failed, mqmi_fault, type_fault, InquireOption, inq_next, inq_prop_under_cursor,
  get_property,
}
use faststream_mq.Headers.{
  property_name_from_header, strip_property_prefix, header_name_from_property,
  normalize_property_value,
}
use faststream_mq.Headers.RoundTrip.{is_ambiguous, header_name-roundtrip}
use faststream_mq.Connection.State.{State}
use faststream_mq.Connection.Consume.{inquire, read_headers_from}
use faststream_mq.Connection.Properties.{
  no_more, found, found_long, found_without_length, asked, inquire-found, inquire-no_more,
  inquire-found_long, inquire-without_length,
}
