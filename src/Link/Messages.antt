-- ===== src/Link/Messages.antt =====
-- What crosses the agent link (apps/realtime/src/link/protocol.ts and the contract's messages), and
-- what a link puts out: messages to the agent, the close of its socket, and broadcasts to those who
-- watch. Ids, instants (in milliseconds) and texts are numbers; texts of errors are left out.
use online_observatory.Common.{
  ℕ, ◌*◌, Bool, true, false, Option, none, some, List, ltb, if◌then◌else◌, ◌==◌,
}
use online_observatory.Mission.{MissionState, MissionFailureReason, SessionEndReason}

pub data AgentPosture : Type 0 where
  simulated attended unattended disarmed : AgentPosture

pub data CommandAcceptanceStatus : Type 0 where
  accepted rejected expired completed failed duplicate : CommandAcceptanceStatus

pub data CaptureAssetKind : Type 0 where
  image unmarked thumbnail fits : CaptureAssetKind

pub data ContentType : Type 0 where
  image_jpeg image_png application_fits image_fits : ContentType
  other_type : ℕ → ContentType

-- A key in object storage: one that `captureObjectKey` derives, or any other text. The parts are
-- UUIDs, so the joined text has no other reading.
pub data ObjectKey : Type 0 where
  capture_object_key : (observatory_id mission_id command_id : ℕ) → CaptureAssetKind → ObjectKey
  other_key : ℕ → ObjectKey

-- Whether the mount is parked, and the rest of the sample.
pub record ObservatoryTelemetry : Type 0 where
  pub parked : Option Bool
  pub sample : ℕ

pub data ImageHealth : Type 0 where
  unrecovered : ImageHealth
  other_health : ℕ → ImageHealth

pub record LiveFrameHeader : Type 0 where
  pub mission_id : ℕ
  pub byte_length : ℕ
  pub encoding : ℕ
  pub sequence : ℕ
  pub captured_at : ℕ
  pub exposure_milliseconds : ℕ
  pub gain : ℕ
  pub stacked_frames : Option ℕ

pub record StateDelta : Type 0 where
  pub mission_id : Option ℕ
  pub telemetry : ObservatoryTelemetry
  pub image_health : Option ImageHealth

pub record Hello : Type 0 where
  pub protocol_version : ℕ
  pub observatory_id : ℕ
  pub booted_at : ℕ
  pub resume_mission_id : Option ℕ
  pub posture : AgentPosture
  pub disarm_reason : Option ℕ

pub record MissionEvent : Type 0 where
  pub mission_id : ℕ
  pub state : MissionState
  pub failure_reason : Option MissionFailureReason
  pub occurred_at : ℕ
  pub command_id : Option ℕ
  pub detail : Option ℕ

-- `safety` is whether the reason starts with SAFETY_.
pub record RejectionReason : Type 0 where
  pub code : ℕ
  pub safety : Bool

pub record CommandAck : Type 0 where
  pub command_id : ℕ
  pub status : CommandAcceptanceStatus
  pub rejection_reason : Option RejectionReason
  pub detail : Option ℕ

pub record UploadGrantRequest : Type 0 where
  pub mission_id : ℕ
  pub command_id : ℕ
  pub kind : CaptureAssetKind
  pub content_type : ContentType
  pub content_length : ℕ

-- `shot` is the account of the exposure, which is recorded as it was reported.
pub record CaptureReady : Type 0 where
  pub mission_id : ℕ
  pub command_id : ℕ
  pub captured_at : ℕ
  pub shot : ℕ
  pub target_id : Option ℕ
  pub image_storage_key : ObjectKey
  pub unmarked_storage_key : Option ObjectKey
  pub fits_storage_key : Option ObjectKey
  pub thumbnail_storage_key : Option ObjectKey

pub data MessageBody : Type 0 where
  agent_hello : Hello → MessageBody
  agent_live_frame : LiveFrameHeader → MessageBody
  agent_state_delta : StateDelta → MessageBody
  agent_heartbeat : AgentPosture → (disarm_reason : Option ℕ) → MessageBody
  agent_mission_event : MissionEvent → MessageBody
  agent_command_ack : CommandAck → MessageBody
  agent_capture_ready : CaptureReady → MessageBody
  agent_upload_grant_request : UploadGrantRequest → MessageBody
  agent_error : ℕ → MessageBody

pub record AgentToCloudMessage : Type 0 where
  pub message_id : ℕ
  pub sent_at : ℕ
  pub body : MessageBody

pub data ErrorCode : Type 0 where
  bad_request forbidden not_found validation_failed internal : ErrorCode

pub record UploadGrant : Type 0 where
  pub mission_id : ℕ
  pub command_id : ℕ
  pub kind : CaptureAssetKind
  pub storage_key : ObjectKey
  pub url : ℕ
  pub expires_at : ℕ
  pub content_type : ContentType
  pub content_length : ℕ

-- `cloud_session_revoked` is a CLOUD_SESSION_UPDATE with a null session; `cloud_relayed` is any
-- message that another part of the service dispatches.
pub data CloudToAgentMessage : Type 0 where
  cloud_error : ErrorCode → (fatal : Bool) → CloudToAgentMessage
  cloud_welcome : (expected_mission_id : Option ℕ) → CloudToAgentMessage
  cloud_session_revoked : (mission_id : ℕ) → CloudToAgentMessage
  cloud_upload_grant : UploadGrant → CloudToAgentMessage
  cloud_relayed : ℕ → CloudToAgentMessage

-- `frame_mode` is the observatory row's.
pub record LiveFrame : Type 0 where
  pub frame_header : LiveFrameHeader
  pub observatory_id : ℕ
  pub frame_mode : ℕ
  pub bytes : List ℕ
  pub received_at : ℕ

pub record SessionEnded : Type 0 where
  pub mission_id : ℕ
  pub state : MissionState
  pub failure_reason : Option MissionFailureReason
  pub end_reason : SessionEndReason
  pub ended_at : ℕ
  pub parked : Bool
  pub capture_ids : List ℕ
  pub summary_email_queued : Bool

pub data Broadcast : Type 0 where
  mission_moved : (mission_id : ℕ) → MissionState → Option MissionFailureReason → Broadcast
  command_answered : CommandAck → Broadcast
  capture_recorded : (mission_id command_id : ℕ) → Broadcast
  telemetry_reported : (mission_id : ℕ) → StateDelta → Broadcast
  session_ended : SessionEnded → Broadcast
  live_frame_arrived : LiveFrame → Broadcast

pub data CloseReason : Type 0 where
  unsupported_protocol_version message_before_hello observatory_mismatch heartbeat_lost :
      CloseReason

pub data Effect : Type 0 where
  sends : CloudToAgentMessage → Effect
  closes : CloseReason → Effect
  broadcasts : Broadcast → Effect

abbrev pub protocol_version_spoken : ℕ
protocol_version_spoken = 1

abbrev pub heartbeat_grace_seconds : ℕ
heartbeat_grace_seconds = 5 * 3

abbrev pub max_text_bytes : ℕ
max_text_bytes = 64 * 1024

-- The JSON parser, and the schema that the build generates from the contract.
pub record Wire : Type 1 where
  pub Raw : Type 0
  pub Json : Type 0
  pub byte_length : Raw → ℕ
  pub json_parse : Raw → Option Json
  pub safe_parse : Json → Option AgentToCloudMessage

-- `parseAgentMessage`, with `none` for a rejection
unfoldable pub parse_agent_message : (W : Wire) → W.Raw → Option AgentToCloudMessage
parse_agent_message W raw =
    if ltb max_text_bytes (W.byte_length raw)
    then none
    else elim (W.json_parse raw) [ none ↦ none | some candidate ↦ W.safe_parse candidate ]

abbrev pub max_upload_bytes : ℕ
max_upload_bytes = 64 * 1024 * 1024

abbrev pub upload_url_ttl_seconds : ℕ
upload_url_ttl_seconds = 15 * 60

-- `ALLOWED_UPLOAD_TYPES[kind].includes(type)`
abbrev pub is_allowed_upload : CaptureAssetKind → ContentType → Bool
is_allowed_upload fits application_fits = true
is_allowed_upload fits image_fits = true
is_allowed_upload fits _ = false
is_allowed_upload _ image_jpeg = true
is_allowed_upload _ image_png = true
is_allowed_upload _ _ = false

abbrev pub kind_code : CaptureAssetKind → ℕ
kind_code image = 0
kind_code unmarked = 1
kind_code thumbnail = 2
kind_code fits = 3

-- `===` on storage keys
abbrev pub same_key : ObjectKey → ObjectKey → Bool
same_key (capture_object_key o m c k) (capture_object_key o' m' c' k') =
    if o == o'
    then (if m == m' then (if c == c' then kind_code k == kind_code k' else false) else false)
    else false
same_key (other_key a) (other_key b) = a == b
same_key _ _ = false
