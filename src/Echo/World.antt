-- ===== src/Echo/World.antt =====
-- What a run of apps/worker/jobs/whatsapp_echo.py reads and changes, and what it calls.
use talap_ml.Common.{ℕ, Bool, Option, List, Result}
use talap_ml.Common.Int.{ℤ}
use talap_ml.Common.Text.{Text}
use talap_ml.Common.Decimal.{UnicodeDigits}
use talap_ml.Common.Table.{Uuid}
use talap_ml.Jobs.{Job, JobError}
use talap_ml.Recommendations.{CustomerRequest, RecommendationState, UnmetDemand}
use talap_ml.Echo.{ProductSearchResult, SearchReply}

-- the columns that the worker reads
pub record InboundMessage : Type 0 where
  pub id : Uuid
  pub channel : Text
  pub external_user_id : Text
  pub message_type : Text
  pub text : Option Text

pub data Extraction : Type 0 where
  extracted : CustomerRequest → Extraction
  -- CustomerRequestConfigurationError or CustomerRequestExtractionError
  extraction_error : Extraction
  extractor_raises : Extraction

-- What leaves a run as an exception.
pub data EchoRaise : Type 0 where
  job_error : JobError → EchoRaise
  value_error other_error : EchoRaise

-- The database, and the calls of `send_text` with their recipient and text.
pub record World : Type 0 where
  pub jobs : List Job
  pub messages : List InboundMessage
  pub recommendations : List RecommendationState
  pub demands : List UnmetDemand
  pub sends : List (Text × Text)

-- A run's arguments, the replies of what it calls, and what happens beside it.
pub record Surroundings : Type 0 where
  pub unicode : UnicodeDigits
  -- `UUID(value)` and `str(uuid)`
  pub uuid_of : Text → Option Uuid
  pub uuid_text : Uuid → Text
  pub extractor : Text → Extraction
  pub search : CustomerRequest → ℕ → SearchReply (List ProductSearchResult)
  -- the id that Meta gives, none where the client raises WhatsAppClientError
  pub send_text : Text → Text → Option Text
  -- the transaction of this call raises and is rolled back
  pub load_raises : Bool
  pub mark_raises : Bool
  pub store_raises : Bool
  pub demand_raises : Bool
  pub manager_setting : Option Text
  pub max_attempts : ℕ
  pub retry_delay : ℤ
  pub stale_after : ℤ
  -- `now`, or the clock at the claim, at a change of the recommendations and at the last call
  pub claim_time : ℤ
  pub state_time : ℤ
  pub final_time : ℤ
  -- rows that another claim has locked, and what other workers commit after this one's claim
  pub locked : Uuid → Bool
  pub others : List Job → List Job
  -- the id and the default `updated_at` of an inserted set
  pub new_state_id : Uuid
  pub new_state_time : ℤ

abbrev pub Run : Type 0 → Type 0
Run A = Result EchoRaise A × World
