-- ===== src/Admin/Records.antt =====
-- The types of server/admin/src/lib/api.ts. A time is its text; null and a missing field are none.
use chimely.Prelude.{ℕ, String, Bool, Option, List, [], ◌∷◌}
use chimely.Types.{JsonValue}

pub data AdminRole : Type 0 where
  viewer operator developer admin : AdminRole

abbrev admin_roles : List AdminRole
admin_roles = viewer ∷ operator ∷ developer ∷ admin ∷ []

pub record AdminMe : Type 0 where
  pub id : String
  pub email : String
  pub name : String
  pub role : AdminRole
  pub capabilities : List String

pub record AdminUserView : Type 0 where
  pub id : String
  pub email : String
  pub name : String
  pub role : AdminRole
  pub disabled : Bool
  pub created_at : String
  pub updated_at : String

pub record AdminEnvironment : Type 0 where
  pub id : String
  pub slug : String
  pub name : String
  pub require_subscriber_hash : Bool
  pub created_at : String

pub record AdminEnvironmentDetail : Type 0 where
  pub environment : AdminEnvironment
  pub subscriber_hmac_secret : Option String
  pub has_previous_secret : Bool
  pub subscriber_hmac_rotated_at : Option String

pub record AdminHmacRotation : Type 0 where
  pub subscriber_hmac_secret : String
  pub has_previous_secret : Bool
  pub subscriber_hmac_rotated_at : Option String

pub record AdminApiKey : Type 0 where
  pub id : String
  pub name : String
  pub key_prefix : String
  pub created_at : String
  pub last_used_at : Option String
  pub revoked_at : Option String

pub record AdminApiKeyCreated : Type 0 where
  pub id : String
  pub name : String
  pub key_prefix : String
  pub key : String
  pub created_at : String

pub record AdminNotification : Type 0 where
  pub id : String
  pub subscriber_id : String
  pub category : String
  pub payload : JsonValue
  pub created_at : String
  pub deliver_at : Option String
  pub visible_at : String
  pub read_at : Option String

pub record AdminNotificationPage : Type 0 where
  pub items : List AdminNotification
  pub next_cursor : Option String

pub record AdminTimelineEntry : Type 0 where
  pub status : String
  pub occurred_at : String

pub record AdminNotificationTimeline : Type 0 where
  pub id : String
  pub subscriber_id : String
  pub timeline : List AdminTimelineEntry

pub record AdminPreference : Type 0 where
  pub category : String
  pub channel : String
  pub enabled : Bool

pub record AdminInboxItem : Type 0 where
  pub id : String
  pub source : String
  pub category : String
  pub payload : JsonValue
  pub occurred_at : String
  pub read : Bool

pub record AdminCounts : Type 0 where
  pub unread : ℕ
  pub unseen : ℕ

pub record AdminSubscriberView : Type 0 where
  pub subscriber_id : String
  pub created_at : String
  pub counters : AdminCounts
  pub read_watermark : String
  pub seen_watermark : String
  pub preferences : List AdminPreference
  pub inbox : List AdminInboxItem

pub record AdminDeadLetter : Type 0 where
  pub id : String
  pub environment_slug : String
  pub job_type : String
  pub attempts : ℕ
  pub last_error : String
  pub parked_at : String

pub record AdminReplayResult : Type 0 where
  pub replayed : ℕ

pub record Broadcast : Type 0 where
  pub id : String
  pub category : String
  pub payload : JsonValue
  pub created_at : String
  pub idempotency_key : String

pub record NotificationFilter : Type 0 where
  pub subscriber_id : Option String
  pub category : Option String
  pub after : Option String
  pub before : Option String
  pub limit : Option ℕ
  pub cursor : Option String
