-- ===== src/Redaction/Hiding.antt =====
-- What `sanitize_payload` of backend/app/core/redaction.py lets through of a payload.
use Prim.Native.String.{count}
use codex_trading_app.Prelude.{
  String, ◌<◌, ◌⊎◌, inl, inr, ◌≡◌, refl, ap, Option, none, some, arith, Bool-cases, false, str_eq,
  eq_iff,
}
use codex_trading_app.Redaction.Payload.{
  Payload, text, mapping, sequence, Fields, end, field, Items, nil, cons,
}
use codex_trading_app.Redaction.Text.{sanitize_text, suffix, mask_of}
use codex_trading_app.Redaction.Sanitize.{
  KeyKind, raw, secret, identifier, key_kind, sanitized, mask_identifier_value, sanitized_field,
  sanitize_value, sanitize_fields, sanitize_items, sanitize_payload,
}

not_empty : (s : String) → 4 < count s → str_eq s "" ≡ false
not_empty s long = elim (Bool-cases (str_eq s "")) [
  | inr e ↦ e
  | inl e ↦ let short : count s ≡ 0 = rw ((eq_iff s "").0 e) refl in absurd (omega (arith, short))
]

-- A mask shows the end of a long text and nothing else of it.
masks_agree :
    (label s t : String)
    → 4 < count s
    → 4 < count t
    → suffix s ≡ suffix t
    → mask_of label (some s) ≡ mask_of label (some t)
unfolding mask_of
masks_agree label s t long_s long_t same_end =
    rw (not_empty s long_s, not_empty t long_t, same_end) refl

-- Two payloads that an onlooker may not tell apart: they differ in what stands under keys of secrets
-- and of raw broker answers, and in identifiers whose sanitized texts are longer than four characters
-- and end in the same four.
module _ {F : Type 0} (lower substitute : String → String) where
  mutual
    pub data Alike : Payload F → Payload F → Type 0 where
      same : (v : Payload F) → Alike v v
      mappings : {fs gs : Fields F} → AlikeFields fs gs → Alike (mapping fs) (mapping gs)
      sequences : {xs ys : Items F} → AlikeItems xs ys → Alike (sequence xs) (sequence ys)

    pub data AlikeFields : Fields F → Fields F → Type 0 where
      ends : AlikeFields end end
      kept :
          (k : String) (v : Payload F) {fs gs : Fields F}
          → AlikeFields fs gs
          → AlikeFields (field k v fs) (field k v gs)
      seen :
          (k : String) {v w : Payload F} {fs gs : Fields F}
          → key_kind lower k ≡ KeyKind.plain
          → Alike v w
          → AlikeFields fs gs
          → AlikeFields (field k v fs) (field k w gs)
      hidden :
          (k : String) (v w : Payload F) {fs gs : Fields F}
          → (key_kind lower k ≡ secret) ⊎ (key_kind lower k ≡ raw)
          → AlikeFields fs gs
          → AlikeFields (field k v fs) (field k w gs)
      masked :
          (k label s t : String) {fs gs : Fields F}
          → key_kind lower k ≡ identifier label
          → 4 < count (sanitize_text substitute s)
          → 4 < count (sanitize_text substitute t)
          → suffix (sanitize_text substitute s) ≡ suffix (sanitize_text substitute t)
          → AlikeFields fs gs
          → AlikeFields (field k (text s) fs) (field k (text t) gs)

    pub data AlikeItems : Items F → Items F → Type 0 where
      nils : AlikeItems nil nil
      conses :
          {v w : Payload F} {xs ys : Items F}
          → Alike v w
          → AlikeItems xs ys
          → AlikeItems (cons v xs) (cons w ys)

  module _ (shown : Payload F → String) where
    mutual
      unfolding sanitize_value sanitized_field mask_identifier_value sanitized

      value_hides :
          {v w : Payload F}
          → Alike v w
          → (parent : Option String)
          → sanitize_value lower substitute shown parent v
            ≡ sanitize_value lower substitute shown parent w
      value_hides (same v) parent = refl
      value_hides (mappings h) parent = ap mapping (fields_hide h)
      value_hides (sequences h) parent = ap sequence (items_hide h parent)

      fields_hide :
          {fs gs : Fields F}
          → AlikeFields fs gs
          → sanitize_fields lower substitute shown fs ≡ sanitize_fields lower substitute shown gs
      fields_hide ends = refl
      fields_hide (kept k v h) = cc (fields_hide h)
      fields_hide (seen k plain h hs) = rw plain (cc (value_hides h (some k), fields_hide hs))
      fields_hide (hidden k v w (inl e) hs) = rw e (cc (fields_hide hs))
      fields_hide (hidden k v w (inr e) hs) = rw e (cc (fields_hide hs))
      fields_hide (masked k label s t e long_s long_t same_end hs) = rw e (
          cc (
            masks_agree label (sanitize_text substitute s) (sanitize_text substitute t) long_s
                long_t same_end,
            fields_hide hs,
          ))

      items_hide :
          {xs ys : Items F}
          → AlikeItems xs ys
          → (parent : Option String)
          → sanitize_items lower substitute shown parent xs
            ≡ sanitize_items lower substitute shown parent ys
      items_hide nils parent = refl
      items_hide (conses h hs) parent = cc (value_hides h parent, items_hide hs parent)

    -- Secrets do not get out: payloads that differ only in the values under keys of secrets and of
    -- raw broker answers, at any depth, and in identifiers whose sanitized texts are longer than
    -- four characters and end in the same four, are sanitized to the same payload.
    pub sanitize_payload_hides :
        (v w : Payload F)
        → Alike v w
        → sanitize_payload lower substitute shown v ≡ sanitize_payload lower substitute shown w
    unfolding sanitize_payload
    sanitize_payload_hides v w h = value_hides h none
