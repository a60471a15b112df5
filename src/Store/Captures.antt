-- ===== src/Store/Captures.antt =====
-- A finished capture: `recordCapture` with `captureTargetOf` of apps/realtime/src/link/prisma-store.ts.
use online_observatory.Common.{
  ℕ, Bool, true, false, ◌&&◌, Option, none, some, List, ◌∷◌, if◌then◌else◌, ◌==◌, any, Table,
  lookup,
}
use online_observatory.Link.Messages.{CaptureAssetKind, fits}
use online_observatory.Link.Storage.{CaptureOutcome, CaptureRecord}
use online_observatory.Store.{
  Tables, StoredMission, Booking, CommandRow, CommandPayload, retarget, CaptureRow, capture_ready,
  capture_filed, record_audit_event, queue_email, matches,
}

abbrev is_retarget_to : ℕ → CommandPayload → Bool
is_retarget_to target (retarget (some q)) = q == target
is_retarget_to target _ = false

-- A RETARGET of the mission was sent to that object.
abbrev sent_there : (mission target : ℕ) → Table CommandRow → Bool
sent_there m target commands =
    any (λ c. c.1.mission_id == m && is_retarget_to target c.1.payload) commands

abbrev current_target : StoredMission → ℕ
current_target m = elim m.current_target_id [ none ↦ m.target_id | some q ↦ q ]

-- `captureTargetOf`
unfoldable pub capture_target_of : CaptureRecord → StoredMission → Table CommandRow → ℕ
capture_target_of c m commands = elim c.target_id [
  | none ↦ current_target m
  | some q ↦
      if q == current_target m
      then q
      else if q == m.target_id
      then q
      else if sent_there c.mission_id q commands
      then q
      else current_target m
]

abbrev is_fits : CaptureAssetKind → Bool
is_fits fits = true
is_fits _ = false

-- The command is this observatory's, for this mission.
abbrev pub minted_for : CaptureRecord → CommandRow → Bool
minted_for c k = k.observatory_id == c.observatory_id && k.mission_id == c.mission_id

abbrev pub is_filed : (command : ℕ) → List CaptureRow → Bool
is_filed k captures = any (λ c. k == c.command_id) captures

unfoldable pub capture_row : CaptureRecord → StoredMission → Table CommandRow → CaptureRow
unfolding capture_target_of
capture_row c m commands = record {
  command_id = c.command_id;
  mission_id = c.mission_id;
  user_id = m.user_id;
  target_id = capture_target_of c m commands;
  captured_at = c.captured_at;
  shot = c.shot;
  fits_available = any (λ a. is_fits a.0) c.assets;
  simulated = m.core.simulated;
  is_demo = m.core.is_demo;
  assets = c.assets;
}

-- Mailed now when no booked session will sum it up
unfoldable pub mail_unbooked : Option Booking → (command_id : ℕ) → Tables → Tables
unfolding queue_email
mail_unbooked (some b) k t = t
mail_unbooked none k t = (queue_email (capture_ready k) t).1

-- Written, audited and mailed
unfoldable pub filed : CaptureRecord → StoredMission → Tables → Tables
unfolding mail_unbooked capture_row
filed c m t = mail_unbooked m.booking c.command_id (
    record_audit_event (capture_filed c.command_id)
      (record t { captures = capture_row c m t.commands ∷ t.captures }))

-- `recordCapture`
unfoldable pub record_capture : CaptureRecord → Tables → CaptureOutcome × Tables
unfolding filed
record_capture c t = elim (lookup c.mission_id t.missions) [
  | none ↦ (CaptureOutcome.not_found, t)
  | some m ↦
      if m.core.observatory_id == c.observatory_id
      then (if matches (minted_for c) (lookup c.command_id t.commands)
          then (if is_filed c.command_id t.captures
              then (CaptureOutcome.duplicate, t)
              else (CaptureOutcome.recorded, filed c m t))
          else (CaptureOutcome.wrong_observatory, t))
      else (CaptureOutcome.wrong_observatory, t)
]
