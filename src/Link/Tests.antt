-- ===== src/Link/Tests.antt =====
-- The agent link at concrete inputs, over the service's own store.
use online_observatory.Common.{
  ℕ, ◌+◌, true, false, Option, none, some, List, [], ◌∷◌, ◌≡◌, ◌≢◌, refl, All, ◌⊎◌, inl, arith,
  length, lookup, ◌==◌,
}
use online_observatory.Mission.{observing, preparing, complete, weather_unsafe}
use online_observatory.Link.Messages.{
  Wire, parse_agent_message, AgentToCloudMessage, Hello, agent_hello, agent_mission_event,
  agent_live_frame, attended, LiveFrameHeader, sends, broadcasts, live_frame_arrived,
  UploadGrantRequest, UploadGrant, CaptureReady, fits, image, application_fits, capture_object_key,
  cloud_upload_grant, cloud_error, ErrorCode,
}
use online_observatory.Link.Storage.{LinkStore}
use online_observatory.Link.State.{Presign, online, is_expired, new_link}
use online_observatory.Link.Handlers.{
  World, apply_upload_grant_request, owns_mission, apply_posture, terminate,
}
use online_observatory.Link.Handlers as Handlers
use online_observatory.Mission as Mission
use online_observatory.Link.Conversation.{
  receive, receive_binary, receive_message, receive_hello_or, receive_online, handle_hello,
  apply_first, apply_body,
}
use online_observatory.Link.Ownership.{IsOwnEffect}
use online_observatory.Link.Reach.{Reaches, here, then_step, text, fresh, Reaches-IsOwned}
use online_observatory.Link.Replay.{receive_replayed, touched, Continues, reconnected, same_link}
use online_observatory.Link.Frames.{receive_binary-receive, frame_of}
use online_observatory.Link.Uploads.{apply_upload_grant_request-granted, MayUpload}
use online_observatory.Link.Registry.{
  Registered, expire_silent, expire_silent-lookup, IsUnique, if_heard, admit, admit-lookup,
  admitted, already_connected,
}
use online_observatory.Store.{Tables, StoredMission, goto, ObservatoryCommandStatus}
use online_observatory.Store.Hello.{
  record_inbound_message, mark_link_up, settle_on_hello, record_posture,
}
use online_observatory.Store.Verdicts.{apply_event, load_command}
use online_observatory.Store.Service.{prisma_store}

abbrev store : LinkStore
store = prisma_store 0

-- Messages arrive as they are, and nothing that is not one parses.
abbrev plain : Wire
plain = record {
  Raw = Option AgentToCloudMessage;
  Json = AgentToCloudMessage;
  byte_length = λ raw. 100;
  json_parse = λ raw. raw;
  safe_parse = λ m. some m;
}

abbrev signed : Presign
signed key now q = now

abbrev row : StoredMission
row = record {
  core = record {
    observatory_id = 1;
    state = preparing;
    failure_reason = none;
    completed_at = none;
    simulated = false;
    is_demo = false;
  };
  user_id = 5;
  target_id = 9;
  current_target_id = none;
  current_target_since = none;
  booking = none;
  slot_end_notified_at = none;
  session_ended_notified_at = none;
  image_unrecovered_since = none;
  events = [];
  cloud_events = [];
}

abbrev tables : Tables
tables = record {
  messages = [];
  observatories = [];
  missions = (3, row) ∷ [];
  commands = [];
  captures = [];
  sessions = [];
  audit = [];
  emails = [];
  notified = [];
}

abbrev start : World store
start = fresh store plain signed 1 0 1000 tables

abbrev hello : AgentToCloudMessage
hello = record {
  message_id = 10;
  sent_at = 1000;
  body = agent_hello (record {
    protocol_version = 1;
    observatory_id = 1;
    booted_at = 500;
    resume_mission_id = none;
    posture = attended;
    disarm_reason = none;
  });
}

abbrev moving : AgentToCloudMessage
moving = record {
  message_id = 11;
  sent_at = 2000;
  body = agent_mission_event (record {
    mission_id = 3;
    state = preparing;
    failure_reason = none;
    occurred_at = 2000;
    command_id = none;
    detail = none;
  });
}

abbrev opened : World store
opened = receive store plain signed (some hello) 1000 start

abbrev moved_on : World store
moved_on = receive store plain signed (some moving) 2000 opened

opens : Reaches store plain signed start opened
opens = then_step start opened opened (text (some hello) 1000 start) (here opened)

moves : Reaches store plain signed start moved_on
moves =
    then_step start opened moved_on (text (some hello) 1000 start)
      (then_step opened moved_on moved_on (text (some moving) 2000 opened) (here moved_on))

Reaches-IsOwned_example :
    (moved_on.link.observatory_id ≡ 1) × All (IsOwnEffect store 1 moved_on.db) moved_on.out
Reaches-IsOwned_example = Reaches-IsOwned store plain signed 1 0 1000 tables moved_on moves

is_open : opened.link.state ≡ online
unfolding receive parse_agent_message receive_message receive_hello_or handle_hello apply_posture
    mark_link_up settle_on_hello record_inbound_message
is_open = refl

parsed : (m : AgentToCloudMessage) → parse_agent_message plain (some m) ≡ some m
unfolding parse_agent_message
parsed m = refl

-- The agent connects again, on a new link.
abbrev next_link : World store
next_link = fresh store plain signed 1 0 8000 moved_on.db

abbrev connected : World store
connected = receive store plain signed (some (record hello { message_id = 12 })) 8000 next_link

connects : Continues store plain signed moved_on connected
connects =
    reconnected moved_on moved_on connected 1 0 8000 moved_on.db (here moved_on)
      (store.later_refl moved_on.db)
      (same_link next_link connected (
        then_step next_link connected connected
          (text (some (record hello { message_id = 12 })) 8000 next_link) (here connected)))

is_open_again : connected.link.state ≡ online
unfolding receive parse_agent_message receive_message receive_hello_or handle_hello apply_posture
    mark_link_up settle_on_hello record_inbound_message receive_online apply_first apply_body
    Handlers.apply_mission_event apply_event Mission.apply_mission_event record_posture
is_open_again = refl

receive_replayed_example :
    receive store plain signed (some moving) 9000 connected ≡ touched store 9000 connected
receive_replayed_example =
    receive_replayed store plain signed 1 0 1000 tables opened connected (some moving) (some moving)
      moving moving 2000 9000 opens is_open (parsed moving) refl connects is_open_again
      (parsed moving) refl refl

abbrev header : LiveFrameHeader
header = record {
  mission_id = 3;
  byte_length = 2;
  encoding = 0;
  sequence = 1;
  captured_at = 3000;
  exposure_milliseconds = 50;
  gain = 10;
  stacked_frames = none;
}

abbrev frame : AgentToCloudMessage
frame = record { message_id = 12; sent_at = 3000; body = agent_live_frame header }

abbrev pixels : List ℕ
pixels = 7 ∷ 8 ∷ []

abbrev paired : World store
paired = receive_binary store pixels 3001 (receive store plain signed (some frame) 3000 opened)

receive_binary-receive_example :
    (length pixels ≡ header.byte_length
      → (owns_mission store 3 opened).0 ≡ true
      → paired.out
        ≡ broadcasts (live_frame_arrived (frame_of store opened header pixels 3001)) ∷ opened.out)
    × (length pixels ≢ header.byte_length → paired.out ≡ opened.out)
    × ((receive_binary store (9 ∷ []) 3002 paired).out ≡ paired.out)
receive_binary-receive_example =
    receive_binary-receive store plain signed (some frame) frame header pixels (9 ∷ []) 3000 3001
      3002 opened is_open (parsed frame) refl

abbrev wanted : UploadGrantRequest
wanted = record {
  mission_id = 3;
  command_id = 4;
  kind = fits;
  content_type = application_fits;
  content_length = 1000;
}

-- The command of the request is of this observatory and mission, so that it is granted.
abbrev commanded : World store
commanded = fresh store plain signed 1 0 1000 (record tables {
  commands =
      (
        4,
        record {
          observatory_id = 1;
          mission_id = 3;
          payload = goto (some 9) false;
          status = ObservatoryCommandStatus.executing;
          completed_at = none;
          result = none;
        },
      )
      ∷ [];
})

apply_upload_grant_request-granted_example :
    ((apply_upload_grant_request store signed wanted 6 commanded).link ≡ commanded.link)
    × ((apply_upload_grant_request store signed wanted 6 commanded).db ≡ commanded.db)
    × ((MayUpload store wanted commanded
          × ((g : UploadGrant) × ((apply_upload_grant_request store signed wanted 6 commanded).out
                ≡ sends (cloud_upload_grant g) ∷ [])
              × (g.storage_key ≡ capture_object_key 1 3 4 fits)
              × (g.content_type ≡ application_fits)
              × (g.content_length ≡ 1000)
              × (g.expires_at ≡ 6 + 900000)))
        ⊎ ((¬ MayUpload store wanted commanded)
            × ((code : ErrorCode) × ((apply_upload_grant_request store signed wanted 6
                    commanded).out
                  ≡ sends (cloud_error code false) ∷ []))))
apply_upload_grant_request-granted_example =
    apply_upload_grant_request-granted store signed wanted 6 commanded

is_granted : MayUpload store wanted commanded
unfolding load_command
is_granted = (
  (record { observatory_id = 1; mission_id = 3 }, refl, refl, refl),
  inl (refl, inl refl),
  omega arith,
)

abbrev stolen : CaptureReady
stolen = record {
  mission_id = 3;
  command_id = 4;
  captured_at = 4000;
  shot = 0;
  target_id = none;
  image_storage_key = capture_object_key 2 8 8 image;
  unmarked_storage_key = none;
  fits_storage_key = none;
  thumbnail_storage_key = none;
}

abbrev quiet : Registered
quiet = record { identity = 1; link = new_link 1 0 0 }

abbrev heard : Registered
heard = record { identity = 2; link = new_link 2 0 20000 }

abbrev links : List (ℕ × Registered)
links = (1, quiet) ∷ (2, heard) ∷ []

expire_silent-lookup_example :
    ((expire_silent 30000 links).0 ≡ 1 ∷ [])
    × ((q : ℕ) → lookup q (expire_silent 30000 links).1 ≡ if_heard 30000 (lookup q links))
unfolding is_expired
expire_silent-lookup_example = expire_silent-lookup 30000 links (refl, (refl, tt))

admit-lookup_example :
    ((i : Registered) → lookup 1 links ≡ some i → admit 1 heard links ≡ (already_connected, links))
    × (lookup 1 links ≡ none
        → ((admit 1 heard links).0 ≡ admitted) × (lookup 1 (admit 1 heard links).1 ≡ some heard))
    × ((q : ℕ) → (q == 1) ≡ false → lookup q (admit 1 heard links).1 ≡ lookup q links)
    × (IsUnique links → IsUnique (admit 1 heard links).1)
admit-lookup_example = admit-lookup 1 heard links
