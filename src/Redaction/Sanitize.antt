-- ===== src/Redaction/Sanitize.antt =====
-- `sanitize_payload` of backend/app/core/redaction.py.
use codex_trading_app.Prelude.{String, Option, none, some, if◌then◌else◌}
use codex_trading_app.Redaction.Payload.{
  Payload, null, flag, number, text, mapping, sequence, other, Fields, end, field, Items, nil, cons,
}
use codex_trading_app.Redaction.Text.{
  redacted, raw_broker_payload_redacted, raw_broker_key_parts, secret_key_parts, account_key_parts,
  deal_key_parts, correlation_key_parts, request_key_parts, runtime_key_parts, matches_any,
  normalize_key, sanitize_text, mask_of,
}

-- What a key says of its value: the first group of key parts that matches decides.
pub data KeyKind : Type 0 where
  raw secret plain : KeyKind
  identifier : String → KeyKind

-- The order of the tests, on a normalized key.
kind_of : String → KeyKind
unfolding matches_any
kind_of key =
    if matches_any key raw_broker_key_parts
    then raw
    else if matches_any key secret_key_parts
    then secret
    else if matches_any key account_key_parts
    then identifier "ACCOUNT_ID"
    else if matches_any key deal_key_parts
    then identifier "BROKER_REF"
    else if matches_any key correlation_key_parts
    then identifier "CORRELATION_ID"
    else if matches_any key request_key_parts
    then identifier "REQUEST_ID"
    else if matches_any key runtime_key_parts
    then identifier "RUNTIME_ID"
    else plain

unfoldable pub key_kind : (String → String) → String → KeyKind
unfolding kind_of normalize_key
key_kind lower key = kind_of (normalize_key lower key)

-- The same groups in the order in which a text under a key is tested.
text_kind_of : String → KeyKind
unfolding matches_any
text_kind_of key =
    if matches_any key secret_key_parts
    then secret
    else if matches_any key account_key_parts
    then identifier "ACCOUNT_ID"
    else if matches_any key deal_key_parts
    then identifier "BROKER_REF"
    else if matches_any key correlation_key_parts
    then identifier "CORRELATION_ID"
    else if matches_any key request_key_parts
    then identifier "REQUEST_ID"
    else if matches_any key runtime_key_parts
    then identifier "RUNTIME_ID"
    else if matches_any key raw_broker_key_parts
    then raw
    else plain

unfoldable pub text_key_kind : (String → String) → Option String → KeyKind
unfolding text_kind_of normalize_key
text_key_kind lower none = plain
text_key_kind lower (some key) = text_kind_of (normalize_key lower key)

-- `lower` is `str.lower`, `substitute` applies the patterns, `shown` is `str`.
module _ {F : Type 0} (lower substitute : String → String) (shown : Payload F → String) where
  -- `sanitize_text` of any value.
  unfoldable pub sanitized : Payload F → Option String
  unfolding sanitize_text
  sanitized null = none
  sanitized (text value) = some (sanitize_text substitute value)
  sanitized value = some (sanitize_text substitute (shown value))

  mask_items : String → Items F → Items F
  unfolding sanitized mask_of
  mask_items label nil = nil
  mask_items label (cons item items) =
      cons (text (mask_of label (sanitized item))) (mask_items label items)

  -- `_mask_identifier_value`
  unfoldable pub mask_identifier_value : String → Payload F → Payload F
  unfolding mask_items sanitized mask_of
  mask_identifier_value label (sequence items) = sequence (mask_items label items)
  mask_identifier_value label value = text (mask_of label (sanitized value))

  -- A text under a key: a mask, a placeholder, or its sanitized form.
  unfoldable pub sanitized_text : KeyKind → String → Payload F
  unfolding sanitize_text mask_identifier_value
  sanitized_text raw value = text raw_broker_payload_redacted
  sanitized_text secret value = text redacted
  sanitized_text (identifier label) value = mask_identifier_value label (text value)
  sanitized_text plain value = text (sanitize_text substitute value)

  -- A field of a mapping, with what the recursion makes of its value.
  unfoldable pub sanitized_field : KeyKind → Payload F → Payload F → Payload F
  unfolding mask_identifier_value
  sanitized_field raw value inner = text raw_broker_payload_redacted
  sanitized_field secret value inner = text redacted
  sanitized_field (identifier label) value inner = mask_identifier_value label value
  sanitized_field plain value inner = inner

  -- `_sanitize_value`
  unfoldable mutual
    unfolding sanitized_text sanitized_field sanitize_text key_kind text_key_kind

    pub sanitize_value : Option String → Payload F → Payload F
    sanitize_value parent_key null = null
    sanitize_value parent_key (flag value) = flag value
    sanitize_value parent_key (number value) = number value
    sanitize_value parent_key (text value) = sanitized_text (text_key_kind lower parent_key) value
    sanitize_value parent_key (mapping fields) = mapping (sanitize_fields fields)
    sanitize_value parent_key (sequence items) = sequence (sanitize_items parent_key items)
    sanitize_value parent_key (other value) = text (sanitize_text substitute value)

    pub sanitize_fields : Fields F → Fields F
    sanitize_fields end = end
    sanitize_fields (field key value fields) =
        field key (sanitized_field (key_kind lower key) value (sanitize_value (some key) value))
          (sanitize_fields fields)

    pub sanitize_items : Option String → Items F → Items F
    sanitize_items parent_key nil = nil
    sanitize_items parent_key (cons item items) =
        cons (sanitize_value parent_key item) (sanitize_items parent_key items)

  unfoldable pub sanitize_payload : Payload F → Payload F
  unfolding sanitize_value
  sanitize_payload value = sanitize_value none value
