-- ===== src/Delivery/Fanouts/Intents.antt =====
-- The message of a row leads its consumer back to the row.
use yurucommu_core.Base.{ℕ, Option, none, some, [], ◌∷◌, JsString, ◌≡◌, refl, get_or_else}
use yurucommu_core.Delivery.Fanouts.{
  FanoutIntent, followers, community, delivery_fanout_intent_from_message, build_fanout_message,
  fresh_row, nonempty, compute_delivery_fanout_id,
}

nonempty-text : (s : Option JsString) → get_or_else (nonempty s) [] ≡ get_or_else s []
nonempty-text none = refl
nonempty-text (some []) = refl
nonempty-text (some (x ∷ s)) = refl

-- The intent that is read from the message of a fresh row has the key under which the row was
-- persisted, even if the announcing activity was left out or given as the empty text.
pub message-id :
    (sha256_hex : JsString → JsString) (now later : ℕ) (intent : FanoutIntent)
    → (read : FanoutIntent) × (delivery_fanout_intent_from_message
          (build_fanout_message later (fresh_row now intent)).body
        ≡ some read)
      × (compute_delivery_fanout_id sha256_hex read ≡ compute_delivery_fanout_id sha256_hex intent)
unfolding delivery_fanout_intent_from_message build_fanout_message fresh_row
    compute_delivery_fanout_id
message-id sha256_hex now later (followers a t) = (_, refl, refl)
message-id sha256_hex now later (community a t none) = (_, refl, refl)
message-id sha256_hex now later (community a t (some [])) = (_, refl, refl)
message-id sha256_hex now later (community a t (some (x ∷ s))) = (_, refl, refl)
