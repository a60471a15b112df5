-- ===== src/Link/State.antt =====
-- What an agent link keeps between messages, and the tests on it: the fields of `AgentLink`
-- (apps/realtime/src/link/agent-link.ts) and the pure parts of its handlers.
use online_observatory.Common.{
  ◌≡◌, ◌⊎◌, inl, inr, refl, ℕ, ◌+◌, ◌*◌, Bool, true, false, not, Option, none, some, List, [], ◌∷◌,
  ◌++◌, ltb, ◌==◌, if◌then◌else◌, Table,
}
use online_observatory.Link.Messages.{
  AgentPosture, simulated, attended, unattended, disarmed, CaptureAssetKind, image, unmarked,
  thumbnail, fits, ObjectKey, capture_object_key, ObservatoryTelemetry, ImageHealth, unrecovered,
  LiveFrameHeader, CaptureReady, heartbeat_grace_seconds, same_key,
}
use online_observatory.Link.Messages.{MessageBody, Hello, agent_hello, UploadGrantRequest}
use online_observatory.Link.Storage.{RelayableCommand}

pub data LinkState : Type 0 where
  awaiting_hello online closed : LinkState

-- `ending` is the mission last reported ended, and since when.
pub record AgentLink : Type 0 where
  pub observatory_id : ℕ
  pub mode : ℕ
  pub state : LinkState
  pub last_activity_at : ℕ
  pub mission_ownership : Table Bool
  pub telemetry : Option ObservatoryTelemetry
  pub recorded_posture : Option (AgentPosture × Option ℕ)
  pub awaiting_pixels : Option LiveFrameHeader
  pub ending : Option (ℕ × ℕ)
  pub image_unrecovered : Table Bool

-- The constructor
abbrev pub new_link : (observatory_id mode now : ℕ) → AgentLink
new_link o mode now = record {
  observatory_id = o;
  mode = mode;
  state = awaiting_hello;
  last_activity_at = now;
  mission_ownership = [];
  telemetry = none;
  recorded_posture = none;
  awaiting_pixels = none;
  ending = none;
  image_unrecovered = [];
}

-- `isExpired`
unfoldable pub is_expired : AgentLink → ℕ → Bool
is_expired l at = ltb (l.last_activity_at + heartbeat_grace_seconds * 1000) at

abbrev pub is_online : LinkState → Bool
is_online online = true
is_online _ = false

abbrev pub posture_code : AgentPosture → ℕ
posture_code simulated = 0
posture_code attended = 1
posture_code unattended = 2
posture_code disarmed = 3

abbrev pub same_option : Option ℕ → Option ℕ → Bool
same_option none none = true
same_option (some a) (some b) = a == b
same_option _ _ = false

-- `key === this.recordedPosture`, for the key `posture|reason`
abbrev pub same_posture : AgentPosture → Option ℕ → Option (AgentPosture × Option ℕ) → Bool
same_posture p r none = false
same_posture p r (some (q, s)) = if posture_code p == posture_code q then same_option r s else false

abbrev pub same_flag : Option Bool → Bool → Bool
same_flag none b = false
same_flag (some a) b = if a then b else not b

abbrev pub is_unrecovered : Option ImageHealth → Bool
is_unrecovered (some unrecovered) = true
is_unrecovered _ = false

-- The ending, unless its telemetry is over.
abbrev pub end_telemetry_ms : ℕ
end_telemetry_ms = 300 * 1000

abbrev pub fresh_ending : ℕ → Option (ℕ × ℕ) → Option (ℕ × ℕ)
fresh_ending now none = none
fresh_ending now (some (m, since)) =
    if ltb (since + end_telemetry_ms) now then none else some (m, since)

-- `message.missionId ?? this.ending?.missionId ?? null`
abbrev pub reported_mission : Option ℕ → Option (ℕ × ℕ) → Option ℕ
reported_mission (some m) e = some m
reported_mission none none = none
reported_mission none (some (m, since)) = some m

abbrev pub is_ending : ℕ → Option (ℕ × ℕ) → Bool
is_ending m none = false
is_ending m (some (e, since)) = e == m

abbrev pub is_parked : ObservatoryTelemetry → Bool
is_parked t = elim t.parked [ none ↦ false | some p ↦ p ]

abbrev pub asset : CaptureAssetKind → Option ObjectKey → List (CaptureAssetKind × ObjectKey)
asset kind none = []
asset kind (some key) = (kind, key) ∷ []

abbrev pub assets_of : CaptureReady → List (CaptureAssetKind × ObjectKey)
assets_of c =
    (image, c.image_storage_key) ∷ asset unmarked c.unmarked_storage_key
    ++ asset fits c.fits_storage_key
    ++ asset thumbnail c.thumbnail_storage_key

-- Every key is the one that the grant derived.
abbrev pub all_granted :
    (observatory mission command : ℕ) → List (CaptureAssetKind × ObjectKey) → Bool
all_granted o m c [] = true
all_granted o m c ((kind, key) ∷ rest) =
    if same_key key (capture_object_key o m c kind) then all_granted o m c rest else false

-- The signature of `presignUpload` is the AWS signer's.
abbrev pub Presign : Type 0
Presign = ObjectKey → ℕ → UploadGrantRequest → ℕ

-- The command is there, was minted for this observatory, and for the mission that is named.
abbrev pub is_ours : Option RelayableCommand → (observatory mission : ℕ) → Bool
is_ours none o m = false
is_ours (some c) o m = if c.observatory_id == o then c.mission_id == m else false

abbrev pub as_hello : MessageBody → Option Hello
as_hello (agent_hello h) = some h
as_hello _ = none

pub LinkState-cases : (s : LinkState) → (s ≡ closed) ⊎ ((s ≡ awaiting_hello) ⊎ (s ≡ online))
LinkState-cases awaiting_hello = inr (inl refl)
LinkState-cases online = inr (inr refl)
LinkState-cases closed = inl refl
