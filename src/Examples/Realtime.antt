-- ===== src/Examples/Realtime.antt =====
-- The endpoints of a Realtime session on the sample stay.
use local_voice_agent.Prelude.{◌≡◌, refl, ◌⊎◌, some, [], nat_eq, string_eq, option_eq}
use local_voice_agent.Value.{Dict}
use local_voice_agent.Models.{Db, Uuid, Role}
use local_voice_agent.Channel.{Published, Payload}
use local_voice_agent.Realtime.Session.{SessionError, validated_realtime_session}
use local_voice_agent.Realtime.Message.{TranscriptItem, duplicate, refused, saved, realtime_message}
use local_voice_agent.System.Once.{realtime_tool_once, realtime_message_once}
use local_voice_agent.System.{here, later, claiming}
use local_voice_agent.Agent.Task.{claim}
use local_voice_agent.Realtime.Tool.{ToolCall, answered, realtime_tool}
use local_voice_agent.Realtime.Tool.Once.{IsRepeated}
use local_voice_agent.Realtime.Tool.Limit.{IsLimited, realtime_tool-IsLimited}
use local_voice_agent.Examples.Data.{db, echo}

abbrev call : ToolCall
call = record {
  stay_id = 1;
  session_id = 50;
  request_id = 9;
  call_id = "call-1";
  name = "list_remote_controls";
  arguments = "{}";
}

abbrev no_metadata : Uuid → Dict
no_metadata s = []

tool_answered : (realtime_tool echo 20 900 no_metadata call db).1 ≡ answered "{}"
unfolding realtime_tool validated_realtime_session
tool_answered = refl

-- The call again after another request was claimed
abbrev later_db : Db
later_db = claim 1 7 (realtime_tool echo 20 900 no_metadata call db).0

realtime_tool_once_example :
    ((realtime_tool echo 30 900 no_metadata call later_db).0
      ≡ (validated_realtime_session 30 900 50 1 later_db).0)
    × IsRepeated call later_db.messages (realtime_tool echo 30 900 no_metadata call later_db).1
realtime_tool_once_example =
    realtime_tool_once echo echo no_metadata call 20 30 900 db later_db "{}" tool_answered
      (later here (claiming 1 7)) refl

realtime_tool-IsLimited_example : IsLimited db (realtime_tool echo 20 900 no_metadata call db).0
realtime_tool-IsLimited_example = realtime_tool-IsLimited echo no_metadata call 20 900 db

abbrev item : TranscriptItem
item = record {
  stay_id = 1;
  session_id = 50;
  request_id = 9;
  role = Role.assistant;
  content = "welcome";
  event_id = "event-1";
}

abbrev announced : Published
announced = record {
  stay_id = 1;
  request_id = some 9;
  payload = Payload.message_persisted 2 Role.assistant "welcome";
}

item_saved : (realtime_message 20 900 no_metadata item db).1 ≡ saved 2 announced
unfolding realtime_message validated_realtime_session
item_saved = refl

-- The same event with another text
abbrev other_item : TranscriptItem
other_item = record item { content = "good day"; request_id = 10 }

abbrev later_message_db : Db
later_message_db = claim 1 7 (realtime_message 20 900 no_metadata item db).0

realtime_message_once_example :
    ((realtime_message 30 900 no_metadata other_item later_message_db).0
      ≡ (validated_realtime_session 30 900 50 1 later_message_db).0)
    × (((realtime_message 30 900 no_metadata other_item later_message_db).1 ≡ duplicate)
        ⊎ ((error : SessionError) × ((realtime_message 30 900 no_metadata other_item
                later_message_db).1
              ≡ refused error)))
realtime_message_once_example =
    realtime_message_once no_metadata item other_item 20 30 900 db later_message_db 2 announced refl
      refl refl item_saved (later here (claiming 1 7)) refl
