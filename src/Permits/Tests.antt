-- ===== src/Permits/Tests.antt =====
-- An approval in a thread: a reaction, a message with its id, a bare word, and an agent that tries.
use zooid.Answers.{MatrixEvent}
use zooid.Approval.{
  ApprovalOption, ApprovalRequest, Effect, allow, empty, register, resolved, settle,
  settled_promise,
}
use zooid.Dict.{Dict, delete, get, set}
use zooid.Json.{Json, end, field, is_obj, obj, str}
use zooid.Permits.{Site, World, handle_approval_reaction, maybe_handle_approval_message}
use zooid.Permits.Warranted.{Warranted}
use zooid.Prelude.{List, String, [], false, none, refl, some, ℕ, ◌++◌, ◌==◌, ◌∷◌, ◌≡◌}
use zooid.Texts.{decimal, decimal_on}

abbrev id : String
id = "0aB1c2d3-0000-1111-2222-0123456789ab"

abbrev option : String → String → ApprovalOption
option o kind = record { option_id = o; name = o; kind = kind }

abbrev asked : ApprovalRequest
asked = record {
  tool_call_id = "c1";
  tool_kind = none;
  tool_title = none;
  tool_input = none;
  options = option "all" "allow_always" ∷ option "once" "allow_once" ∷ [];
}

abbrev world : World
world = record {
  approvals = (register id "coder" "s1" asked none empty).0;
  by_event = ("$q", id) ∷ [];
  metas = (id, record { room_id = "!r"; thread_root = "$t"; as_user_id = "@coder:h" }) ∷ [];
  posted = [];
}

abbrev site : Site
site = record { is_bot = λ s. s == "@coder:h"; first_agent_for_room = λ r. some "@coder:h" }

abbrev from : String → Dict (Json ℕ) → MatrixEvent ℕ
from sender c = record {
  event_id = some "$e";
  room_id = some "!r";
  sender = some sender;
  content = c;
}

abbrev relation : String → String → String → Json ℕ
relation type target key =
    obj (field "rel_type" (str type) (field "event_id" (str target) (field "key" (str key) end)))

abbrev thumb : String → MatrixEvent ℕ
thumb sender = from sender (("m.relates_to", relation "m.annotation" "$q" "👍\u{fe0f}") ∷ [])

abbrev in_thread : String → MatrixEvent ℕ
in_thread body =
    from "@ana:h" (("body", str body) ∷ ("m.relates_to", relation "m.thread" "$t" "") ∷ [])

abbrev settled_log : List Effect
settled_log = settled_promise id (allow "once") ∷ resolved id "s1" "coder" (allow "once") ∷ []

by_thumb :
    ((handle_approval_reaction site (thumb "@ana:h") world).0.approvals.log
      ≡ world.approvals.log ++ settled_log)
    × ((handle_approval_reaction site (thumb "@ana:h") world).0.metas ≡ [])
    × ((handle_approval_reaction site (thumb "@coder:h") world) ≡ (world, false))
unfolding handle_approval_reaction register empty settle get set delete is_obj
by_thumb = (refl, refl, refl)

by_word :
    ((maybe_handle_approval_message site (in_thread "approve") world).0.approvals.log
      ≡ world.approvals.log ++ settled_log)
    × (maybe_handle_approval_message site (in_thread "approve please") world ≡ (world, false))
unfolding maybe_handle_approval_message register empty settle get set delete is_obj
by_word = (refl, refl)

two_pending : decimal 12 ≡ "12"
unfolding decimal_on
two_pending = refl
