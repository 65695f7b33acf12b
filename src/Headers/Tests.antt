-- ===== src/Headers/Tests.antt =====
-- The laws of the headers on a few names and values.
use faststream_mq.Base.{◌≡◌, ◌↔◌, refl, false, some, none, [], ◌∷◌, codes, Dict, lookup}
use faststream_mq.Values.{Value, str_value}
use faststream_mq.Headers.{
  property_name_from_header, header_name_from_property, strip_property_prefix, headers_to_publish,
}
use faststream_mq.Headers.RoundTrip.{header_name-roundtrip, is_ambiguous}
use faststream_mq.Headers.Defaults.{headers_to_publish-lookup, first_some, offered}

-- the property of one name is another name's header
property_collision :
    header_name_from_property (strip_property_prefix (property_name_from_header (codes "a_dash_b")))
    ≡ codes "a-b"
unfolding header_name_from_property strip_property_prefix property_name_from_header
property_collision = refl

header_name-roundtrip_example :
    (header_name_from_property
        (strip_property_prefix (property_name_from_header (codes "content-type")))
      ≡ codes "content-type")
    ↔ (is_ambiguous (codes "content-type") ≡ false)
header_name-roundtrip_example = header_name-roundtrip (codes "content-type")

abbrev some_headers : Dict Value
some_headers = (codes "x-tenant", str_value (codes "t1")) ∷ []

headers_to_publish-lookup_example :
    (lookup
        (codes "content-type")
        (headers_to_publish some_headers (some (codes "text/plain")) none)
      ≡ first_some
          (lookup (codes "content-type") some_headers)
          (offered (some (codes "text/plain"))))
    × (lookup
          (codes "message_type")
          (headers_to_publish some_headers (some (codes "text/plain")) none)
        ≡ first_some (lookup (codes "message_type") some_headers) (offered none))
    × (lookup (codes "x-tenant") (headers_to_publish some_headers (some (codes "text/plain")) none)
        ≡ lookup (codes "x-tenant") some_headers)
headers_to_publish-lookup_example =
    headers_to_publish-lookup some_headers (some (codes "text/plain")) none (codes "x-tenant")
      (λ e. cc) (λ e. cc)
