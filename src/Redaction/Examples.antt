-- ===== src/Redaction/Examples.antt =====
-- Payloads for backend/app/core/redaction.py, and what it makes of them.
use Prim.Native.String.{count}
use codex_trading_app.Prelude.{ℕ, ◌<◌, String, ◌≡◌, refl, inl, inr, some, arith}
use codex_trading_app.Redaction.Payload.{
  Payload, number, text, mapping, sequence, end, field, nil, cons,
}
use codex_trading_app.Redaction.Text.{sanitize_text, suffix, sanitize_error_detail}
use codex_trading_app.Redaction.Sanitize.{
  secret, raw, plain, identifier, key_kind, sanitize_payload,
}
use codex_trading_app.Redaction.Hiding.{
  Alike, mappings, sequences, ends, kept, seen, hidden, masked, nils, conses,
  sanitize_payload_hides,
}

-- Keys in small letters, texts without a pattern, and values whose text is short.
abbrev lower : String → String
lower key = key

abbrev substitute : String → String
substitute value = value

abbrev shown : Payload ℕ → String
shown value = "?"

abbrev order_with : String → String → Payload ℕ → Payload ℕ
order_with token account answer = mapping (
    field "size" (number 3) (
      field "api-key" (text token) (
        field "legs"
          (sequence (
            cons (mapping (field "account id" (text account) (field "raw_response" answer end)))
              nil))
          end)))

abbrev redacted_order : Payload ℕ
redacted_order = mapping (
    field "size" (number 3) (
      field "api-key" (text "[REDACTED]") (
        field "legs"
          (sequence (
            cons
              (mapping (
                field "account id" (text "[REDACTED_ACCOUNT_ID:5678]")
                  (field "raw_response" (text "[RAW_BROKER_PAYLOAD REDACTED]") end)))
              nil))
          end)))

an_order_redacted :
    sanitize_payload lower substitute shown (order_with "hunter2" "12345678" (number 7))
    ≡ redacted_order
unfolding sanitize_payload
an_order_redacted = refl

a_traceback_hidden :
    sanitize_error_detail substitute (λ s. s) (some "File \"broker.py\", line 1") "Order failed."
    ≡ "Order failed."
unfolding sanitize_error_detail
a_traceback_hidden = refl

plain_size : key_kind lower "legs" ≡ plain
unfolding key_kind
plain_size = refl

secret_api_key : key_kind lower "api-key" ≡ secret
unfolding key_kind
secret_api_key = refl

identifier_account : key_kind lower "account id" ≡ identifier "ACCOUNT_ID"
unfolding key_kind
identifier_account = refl

raw_answer : key_kind lower "raw_response" ≡ raw
unfolding key_kind
raw_answer = refl

same_end :
    suffix (sanitize_text substitute "12345678") ≡ suffix (sanitize_text substitute "99995678")
unfolding suffix sanitize_text
same_end = refl

count_first : 4 < count (sanitize_text substitute "12345678")
unfolding sanitize_text
count_first = omega arith

count_second : 4 < count (sanitize_text substitute "99995678")
unfolding sanitize_text
count_second = omega arith

orders-Alike :
    Alike lower substitute
      (order_with "hunter2" "12345678" (number 7))
      (order_with "swordfish" "99995678" (text "refused"))
orders-Alike = mappings (
    kept "size" (number 3) (
      hidden "api-key" (text "hunter2") (text "swordfish") (inl secret_api_key) (
        seen "legs" plain_size
          (sequences (
            conses
              (mappings (
                masked "account id" "ACCOUNT_ID" "12345678" "99995678" identifier_account
                  count_first count_second same_end
                  (hidden "raw_response" (number 7) (text "refused") (inr raw_answer) ends)))
              nils))
          ends)))

sanitize_payload_hides_example :
    sanitize_payload lower substitute shown (order_with "hunter2" "12345678" (number 7))
    ≡ sanitize_payload lower substitute shown (order_with "swordfish" "99995678" (text "refused"))
sanitize_payload_hides_example =
    sanitize_payload_hides lower substitute shown (order_with "hunter2" "12345678" (number 7))
      (order_with "swordfish" "99995678" (text "refused")) orders-Alike
