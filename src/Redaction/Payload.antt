-- ===== src/Redaction/Payload.antt =====
-- The values that `sanitize_payload` of backend/app/core/redaction.py walks through. `F` is the type
-- of numbers; `other` is any value that is none of these, such as a date.
use codex_trading_app.Prelude.{String, Bool}

mutual
  pub data Payload (F : Type 0) : Type 0 where
    null : Payload F
    flag : Bool → Payload F
    number : F → Payload F
    text : String → Payload F
    mapping : Fields F → Payload F
    sequence : Items F → Payload F
    other : String → Payload F

  pub data Fields (F : Type 0) : Type 0 where
    end : Fields F
    field : String → Payload F → Fields F → Fields F

  pub data Items (F : Type 0) : Type 0 where
    nil : Items F
    cons : Payload F → Items F → Items F
