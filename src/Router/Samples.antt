-- ===== src/Router/Samples.antt =====
-- Two agents in a room, and events of their thread, for the tests.
use zooid.Dict.{Dict}
use zooid.Events.{AgentBinding, Content, Event, RawHandoff, ThreadState, mention}
use zooid.Mentions.{Text}
use zooid.Prelude.{List, Option, String, [], false, none, some, ◌∷◌}

abbrev pub agent : String → String → AgentBinding
agent name id = record {
  name = name;
  user_id = id;
  display_name = none;
  rooms = record { alias = "!r"; power_level = none } ∷ [];
  trigger = mention;
}

abbrev pub planner : AgentBinding
planner = agent "planner" "@planner:h"

abbrev pub coder : AgentBinding
coder = agent "coder" "@coder:h"

abbrev pub agents : List AgentBinding
agents = planner ∷ coder ∷ []

abbrev pub prose : String → Text
prose s = record { user_ids = []; body = some s; formatted_body = none }

abbrev pub reply : Option RawHandoff → String → Content
reply h s = record {
  msgtype = some "m.text";
  relates_to = some (record { rel_type = some "m.thread"; event_id = some "$t" });
  trigger_stamp = none;
  mirror = false;
  new_content_mirror = false;
  completion_notice = false;
  handoff = h;
  text = prose s;
}

abbrev pub says : String → Content → Event
says who c = record {
  type = "m.room.message";
  room_id = some "!r";
  sender = some who;
  content = some c;
}

-- The planner has called the coder in the thread, which posted last.
abbrev pub called_thread : ThreadState
called_thread = record {
  participants = "planner" ∷ "coder" ∷ [];
  root_mentions = "planner" ∷ [];
  callers = ("@coder:h", "@planner:h") ∷ [];
  handoffs = ("@coder:h", "$call" ∷ []) ∷ [];
}

abbrev pub threads : Dict ThreadState
threads = ("$t", called_thread) ∷ []

abbrev pub to_coder : RawHandoff
to_coder = record {
  version = some 1;
  call_id = some "call";
  caller = some "@planner:h";
  callee = some "@coder:h";
}
