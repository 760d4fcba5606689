-- ===== src/Redaction/Text.antt =====
-- Texts and keys in backend/app/core/redaction.py, with the key parts of
-- backend/app/core/identifier_policy.py.
use Prim.Native.Char.{Char, code}
use Prim.Native.String
use Prim.Native.String.{count, find, len}
use codex_trading_app.Prelude.{
  ℕ, zero, suc, ◌-◌, String, Bool, ◌||◌, Option, none, some, List, [], ◌∷◌, any, leb, ltb, ◌==◌,
  str_eq, if◌then◌else◌,
}

abbrev pub redacted : String
redacted = "[REDACTED]"

abbrev pub traceback_redacted : String
traceback_redacted = "[TRACEBACK REDACTED]"

abbrev pub raw_broker_payload_redacted : String
raw_broker_payload_redacted = "[RAW_BROKER_PAYLOAD REDACTED]"

abbrev pub raw_broker_key_parts : List String
raw_broker_key_parts =
    "payload" ∷ "market_payload" ∷ "raw_response" ∷ "response_body" ∷ "response_text"
    ∷ "response_headers" ∷ "request_headers" ∷ []

abbrev pub secret_key_parts : List String
secret_key_parts =
    "authorization" ∷ "password" ∷ "passwd" ∷ "secret" ∷ "token" ∷ "api_key" ∷ "apikey" ∷ "session"
    ∷ "credential" ∷ "header" ∷ []

abbrev pub account_key_parts : List String
account_key_parts = "account_id" ∷ "accountid" ∷ "current_account_id" ∷ "currentaccountid" ∷ []

abbrev pub deal_key_parts : List String
deal_key_parts =
    "deal_reference" ∷ "dealreference" ∷ "deal_id" ∷ "dealid" ∷ "broker_reference"
    ∷ "close_broker_reference" ∷ "current_position_broker_reference" ∷ []

abbrev pub correlation_key_parts : List String
correlation_key_parts = "correlation_id" ∷ []

abbrev pub request_key_parts : List String
request_key_parts = "client_request_id" ∷ "execution_client_request_id" ∷ []

abbrev pub runtime_key_parts : List String
runtime_key_parts = "runtime_id" ∷ []

abbrev pub traceback_markers : List String
traceback_markers = "Traceback (most recent call last):" ∷ "File \"" ∷ []

-- `pattern in value`
contains : String → String → Bool
contains value pattern = leb (find value pattern) (len value)

-- `_matches_any`
unfoldable pub matches_any : String → List String → Bool
unfolding contains
matches_any value patterns = any (contains value) patterns

-- `.replace("-", "_").replace(" ", "_")`, on one character and on a text.
underscored : Char → Char
underscored c = if code c == b'-' || code c == b' ' then "_" else c

with_underscores : String → String
unfolding underscored
with_underscores String.[] = String.[]
with_underscores (String.◌∷◌ c s) = String.◌∷◌ (underscored c) (with_underscores s)

-- `_normalize_key`, with `str.lower`.
unfoldable pub normalize_key : (String → String) → String → String
unfolding with_underscores
normalize_key lower key = with_underscores (lower key)

-- `sanitize_text` of a value whose text is given; `substitute` applies the patterns.
unfoldable pub sanitize_text : (String → String) → String → String
unfolding contains
sanitize_text substitute value =
    if any (contains value) traceback_markers then traceback_redacted else substitute value

drop : ℕ → String → String
drop zero s = s
drop (suc n) String.[] = String.[]
drop (suc n) (String.◌∷◌ c s) = drop n s

-- `text[-4:] if len(text) > 4 else text`
unfoldable pub suffix : String → String
unfolding drop
suffix value = if ltb 4 (count value) then drop (count value - 4) value else value

-- `_mask_identifier`, of a text that `sanitize_text` returned.
unfoldable pub mask_of : String → Option String → String
unfolding suffix
mask_of label none = String.◌++◌ "[REDACTED_" (String.◌++◌ label "]")
mask_of label (some value) =
    if str_eq value ""
    then String.◌++◌ "[REDACTED_" (String.◌++◌ label "]")
    else String.◌++◌ "[REDACTED_"
        (String.◌++◌ label (String.◌++◌ ":" (String.◌++◌ (suffix value) "]")))

-- `sanitize_error_detail`, with `str.strip`, of an error's text.
unfoldable pub sanitize_error_detail :
    (String → String) → (String → String) → Option String → String → String
unfolding sanitize_text
sanitize_error_detail substitute strip none default_detail = default_detail
sanitize_error_detail substitute strip (some error) default_detail =
    let cleaned = strip (sanitize_text substitute error) in
    if str_eq cleaned "" || str_eq cleaned traceback_redacted then default_detail else cleaned
