-- ===== src/Audit/Secrets.antt =====
-- What a sanitized payload (utils/audit-sanitizer.ts) tells of the values under denied keys, and what it
-- keeps.
use bukia_hft.Base.{◌≡◌, refl, ap, String, Bool-cases, inl, inr, if◌then◌else◌}
use bukia_hft.Audit.{
  Json, Items, Fields, json_null, json_bool, json_number, json_text, array, object, no_item, item,
  no_field, field, Library, SanitizeOptions, redact_value, matches_key, walk, walk_items,
  walk_fields, sanitize_audit,
}

field-eq :
    (k : String) {v w : Json} {fs gs : Fields} → v ≡ w → fs ≡ gs → field k v fs ≡ field k w gs
field-eq k e h = cc (e, h)

-- The payload with `f` applied to each value under a denied key.
module _ (l : Library) (options : SanitizeOptions) (f : Json → Json) where
  abbrev mutual
    pub mask : Json → Json
    mask json_null = json_null
    mask (json_bool b) = json_bool b
    mask (json_number n) = json_number n
    mask (json_text t) = json_text t
    mask (array is) = array (mask_items is)
    mask (object fs) = object (mask_fields fs)

    pub mask_items : Items → Items
    mask_items no_item = no_item
    mask_items (item v is) = item (mask v) (mask_items is)

    pub mask_fields : Fields → Fields
    mask_fields no_field = no_field
    mask_fields (field k v fs) =
        let inner = mask v in
        field k (if matches_key l options k then f v else inner) (mask_fields fs)

  module _ (token_secret : String)
      (same : (v : Json)
        → redact_value l options token_secret (f v) ≡ redact_value l options token_secret v) where
    mutual
      unfolding walk

      walk-mask : (v : Json) → walk l options token_secret (mask v) ≡ walk l options token_secret v
      walk-mask json_null = refl
      walk-mask (json_bool b) = refl
      walk-mask (json_number n) = refl
      walk-mask (json_text t) = refl
      walk-mask (array is) = ap array (items-mask is)
      walk-mask (object fs) = ap object (fields-mask fs)

      items-mask :
          (is : Items)
          → walk_items l options token_secret (mask_items is) ≡ walk_items l options token_secret is
      items-mask no_item = refl
      items-mask (item v is) = cc (walk-mask v, items-mask is)

      fields-mask :
          (fs : Fields)
          → walk_fields l options token_secret (mask_fields fs)
            ≡ walk_fields l options token_secret fs
      fields-mask no_field = refl
      fields-mask (field k v fs) = elim (Bool-cases (matches_key l options k)) [
        | inl denied ↦ rw denied (field-eq k (same v) (fields-mask fs))
        | inr plain ↦ rw plain (field-eq k (walk-mask v) (fields-mask fs))
      ]

    -- Let the redaction of a value not change when `f` is applied to the value, as it does not where
    -- the placeholder is used, or where the HMAC is cut to the same text. Then the sanitized payload
    -- does not change either, if `f` is applied to each value under a denied key, however deep in
    -- the payload the key stands.
    pub sanitize_hides_denied :
        (payload : Json)
        → sanitize_audit l options token_secret (mask payload)
          ≡ sanitize_audit l options token_secret payload
    unfolding sanitize_audit
    sanitize_hides_denied payload = walk-mask payload
