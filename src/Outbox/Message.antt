-- ===== src/Outbox/Message.antt =====
-- `OutboxMessage` of packages/contracts/src/outbox.d.ts, and the tests on a new message in
-- packages/testkit/src/stores/outbox-validation.ts.
use authmodules.Prelude.{
  ℕ, ℕ_discrete, ◌+◌, Bool, true, false, ◌&&◌, Option, none, some, List, [], ◌∷◌, Text, codes,
  text_discrete, test, leb, ltb, ◌==◌, if◌then◌else◌, length,
}
use authmodules.Contracts.Errors.{Reason}
use authmodules.Contracts.Values.{
  Time, Date, is_safe_text, safe_option, max_safe_integer, SealedSecret, is_runtime_sealed_value,
  clones,
}
use authmodules.Contracts.Json.{
  Json, null, text, obj, Fields, end, field, JsonState, fresh_state, consume_text, json_value,
  is_outbox_data, is_refused_in_outbox,
}
use authmodules.Contracts.Json.Print.{stringify, stringify_texts}

pub data OutboxStatus : Type 0 where
  pending claimed dispatched failed dead : OutboxStatus

pub data DispatchPolicy : Type 0 where
  required best_effort : DispatchPolicy

-- `lease_${n}`, or a text that no store issues.
pub data LeaseId : Type 0 where
  lease_ : ℕ → LeaseId
  foreign : Text → LeaseId

unfoldable pub lease_id_discrete : Discrete LeaseId
unfolding text_discrete
lease_id_discrete = hlevel (text_discrete, ℕ_discrete)

-- `leaseUntil` is a `Date` computed from the clock, and may be invalid at the end of time.
pub record OutboxLease : Type 0 where
  pub lease_id : LeaseId
  pub worker_id : Text
  pub lease_until : Date

pub record DispatchContext : Type 0 where
  pub tenant_id : Text
  pub request_id : Option Text
  pub locale : Option Text
  pub metadata : Option Json

pub data DeliveryItem : Type 0 where
  sealed : SealedSecret → DeliveryItem
  plain : Json → DeliveryItem

pub record DeliveryMessage : Type 0 where
  pub channel : Text
  pub target : Text
  pub display : Option Text
  pub template_id : Text
  pub locale : Option Text
  pub metadata : Option Json
  pub items : Option (List (Text × DeliveryItem))

-- `OutboxMessage` with the lease of `StoredOutboxMessage`.
pub record OutboxMessage : Type 0 where
  pub tenant_id : Text
  pub message_id : Text
  pub context : DispatchContext
  pub secret_purpose : Text
  pub message : DeliveryMessage
  pub dispatch_policy : DispatchPolicy
  pub idempotency_key : Option Text
  pub status : OutboxStatus
  pub attempts : ℕ
  pub max_attempts : ℕ
  pub last_failure_reason : Option Reason
  pub expires_at : Option Time
  pub available_at : Time
  pub created_at : Time
  pub updated_at : Time
  pub lease : Option OutboxLease

pub outbox_secret_purpose : Text → Text → Text
outbox_secret_purpose tenant_id message_id =
    stringify_texts (codes "authmodules.outbox.delivery" ∷ tenant_id ∷ message_id ∷ [])

is_dispatch_context : DispatchContext → Text → Bool
unfolding text_discrete
is_dispatch_context c tenant_id =
    test (text_discrete c.tenant_id tenant_id)
    && (safe_option c.request_id 512 true
        && (safe_option c.locale 128 true && is_outbox_data c.metadata))

delivery_item : DeliveryItem → JsonState → Option JsonState
delivery_item (sealed s) state =
    if is_runtime_sealed_value s then consume_text s.ciphertext 1_000_000 true state else none
delivery_item (plain value) state = json_value is_refused_in_outbox value 0 state

delivery_items : List (Text × DeliveryItem) → JsonState → Bool
unfolding delivery_item
delivery_items [] state = true
delivery_items ((key, item) ∷ rest) state = elim (consume_text key 512 true state) [
  | none ↦ false
  | some keyed ↦ elim (delivery_item item keyed) [
    | none ↦ false
    | some after ↦ delivery_items rest after
  ]
]

is_persistable_delivery_message : DeliveryMessage → Bool
unfolding delivery_items
is_persistable_delivery_message m =
    is_safe_text m.channel 64 true
    && (is_safe_text m.target 2048 true
        && (safe_option m.display 512 false
            && (is_safe_text m.template_id 256 true
                && (safe_option m.locale 128 true
                    && (is_outbox_data m.metadata && elim m.items [
                      | none ↦ true
                      | some items ↦ leb (length items) 1000 && delivery_items items fresh_state
                    ])))))

is_best_effort : DispatchPolicy → Bool
is_best_effort best_effort = true
is_best_effort required = false

is_idempotency : Option Text → DispatchPolicy → Bool
unfolding is_best_effort
is_idempotency none policy = is_best_effort policy
is_idempotency (some key) policy = is_safe_text key 512 true

unfoldable pub is_pending : OutboxStatus → Bool
is_pending pending = true
is_pending _ = false

is_none {ℓ} : {A : Type ℓ} → Option A → Bool
is_none none = true
is_none (some a) = false

-- A message with a lease has an unknown key, and is refused.
unfoldable pub is_new_persistable_outbox_message : OutboxMessage → Bool
unfolding is_dispatch_context is_persistable_delivery_message is_idempotency outbox_secret_purpose
    is_none
is_new_persistable_outbox_message m =
    is_none m.lease
    && (is_safe_text m.tenant_id 512 true
        && (is_safe_text m.message_id 512 true
            && (is_dispatch_context m.context m.tenant_id
                && (is_safe_text m.secret_purpose 4096 true
                    && (test (
                          text_discrete m.secret_purpose
                            (outbox_secret_purpose m.tenant_id m.message_id))
                        && (is_persistable_delivery_message m.message
                            && (is_pending m.status
                                && (m.attempts == 0
                                    && (is_none m.last_failure_reason
                                        && ((ltb 0 m.max_attempts
                                              && leb m.max_attempts max_safe_integer)
                                            && is_idempotency m.idempotency_key
                                                m.dispatch_policy))))))))))

-- `cloneRecord` throws on a sealed value whose ciphertext is out of bounds.
clones_items : List (Text × DeliveryItem) → Bool
clones_items [] = true
clones_items ((key, sealed s) ∷ rest) = clones s.ciphertext && clones_items rest
clones_items ((key, plain value) ∷ rest) = clones_items rest

unfoldable pub clones_message : OutboxMessage → Bool
unfolding clones_items
clones_message m = elim m.message.items [ none ↦ true | some items ↦ clones_items items ]

length_option : Option Text → ℕ
length_option none = 0
length_option (some t) = length t

-- The fields of an object that are defined, for `JSON.stringify`.
text_field : Text → Option Text → Fields → Fields
text_field key none rest = rest
text_field key (some t) rest = field key (text t) rest

json_field : Text → Option Json → Fields → Fields
json_field key none rest = rest
json_field key (some value) rest = field key value rest

context_json : DispatchContext → Json
unfolding text_field json_field
context_json c = obj (
    field (codes "tenantId") (text c.tenant_id) (
      text_field (codes "requestId") c.request_id
        (text_field (codes "locale") c.locale (json_field (codes "metadata") c.metadata end))))

or_null : Option Json → Json
or_null none = null
or_null (some value) = value

item_count : List (Text × DeliveryItem) → ℕ
item_count [] = 0
item_count ((key, sealed s) ∷ rest) = length key + length s.ciphertext + item_count rest
item_count ((key, plain value) ∷ rest) = length key + length (stringify value) + item_count rest

-- The messages counted are new ones, which have no failure reason.
unfoldable pub outbox_message_character_count : OutboxMessage → ℕ
unfolding length_option context_json or_null item_count
outbox_message_character_count m =
    length (stringify (context_json m.context))
    + length m.tenant_id
    + length m.message_id
    + length m.secret_purpose
    + length_option m.idempotency_key
    + length m.message.channel
    + length m.message.target
    + length_option m.message.display
    + length m.message.template_id
    + length_option m.message.locale
    + length (stringify (or_null m.message.metadata))
    + (elim m.message.items [ none ↦ 0 | some items ↦ item_count items ])
