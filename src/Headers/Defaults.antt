-- ===== src/Headers/Defaults.antt =====
-- `_headers_to_publish` fills in two headers and leaves every other one alone.
use faststream_mq.Base.{
  ◌≡◌, ◌≢◌, Option, none, some, ◌∷◌, arith, Text, Dict, codes, lookup, lookup-set_default,
  text_eq_iff, if◌then◌else◌, [], text_eq, ap, ◌∙◌,
}
use faststream_mq.Values.{Value, str_value}
use faststream_mq.Headers.{default_header, headers_to_publish}

-- the value that `setdefault` would store
abbrev pub offered : Option Text → Option Value
offered none = none
offered (some []) = none
offered (some (c ∷ s)) = some (str_value (c ∷ s))

abbrev pub first_some : Option Value → Option Value → Option Value
first_some (some v) o = some v
first_some none o = o

pub lookup-default_header :
    (key k : Text) (v : Option Text) (h : Dict Value)
    → lookup k (default_header key v h)
      ≡ (if text_eq key k then first_some (lookup k h) (offered v) else lookup k h)
lookup-default_header key k none h = ground arith
lookup-default_header key k (some []) h = ground arith
lookup-default_header key k (some (c ∷ s)) h =
    ground (arith, lookup-set_default key k (str_value (c ∷ s)) h)

untouched : (key k : Text) (o p : Option Value) → k ≢ key → (if text_eq key k then p else o) ≡ o
untouched key k o p h = ground (arith, text_eq_iff key k)

-- A published message carries each of the caller's headers unchanged. Where the caller gives none,
-- it carries the content type of the encoded body and the message type of the command if they are
-- not empty, and no other header.
pub headers_to_publish-lookup :
    (h : Dict Value) (content_type message_type : Option Text) (k : Text)
    → k ≢ codes "content-type"
    → k ≢ codes "message_type"
    → (lookup (codes "content-type") (headers_to_publish h content_type message_type)
        ≡ first_some (lookup (codes "content-type") h) (offered content_type))
      × (lookup (codes "message_type") (headers_to_publish h content_type message_type)
          ≡ first_some (lookup (codes "message_type") h) (offered message_type))
      × (lookup k (headers_to_publish h content_type message_type) ≡ lookup k h)
unfolding headers_to_publish text_eq
headers_to_publish-lookup h content_type message_type k p q =
    let inner = default_header (codes "content-type") content_type h in
    (
      lookup-default_header (codes "message_type") (codes "content-type") message_type inner
          ∙ lookup-default_header (codes "content-type") (codes "content-type") content_type h,
      lookup-default_header (codes "message_type") (codes "message_type") message_type inner
          ∙ ap (λ o. first_some o (offered message_type))
              (lookup-default_header (codes "content-type") (codes "message_type") content_type h),
      lookup-default_header (codes "message_type") k message_type inner
          ∙ untouched (codes "message_type") k (lookup k inner) _ q
          ∙ lookup-default_header (codes "content-type") k content_type h
          ∙ untouched (codes "content-type") k (lookup k h) _ p,
    )
