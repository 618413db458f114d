-- ===== src/Media/Tests.antt =====
-- Items of two senders in a thread.
use zooid.Dict.{get, set}
use zooid.Media.{PendingMediaItem, add, drain}
use zooid.Media.Drain.{Call, adds, run}
use zooid.Prelude.{List, String, [], map, none, refl, ◌∷◌, ◌≡◌}

abbrev item : String → String → PendingMediaItem
item id who = record {
  event_id = id;
  sender = who;
  msgtype = "m.image";
  body = "a.png";
  filename = none;
  url = "mxc://h/a";
  info = none;
}

abbrev calls : List Call
calls =
    adds "!r" none (item "1" "@u")
    ∷ adds "!r" none (item "2" "@v")
    ∷ adds "!r" none (item "3" "@u")
    ∷ []

drained :
    map (λ (i : PendingMediaItem). i.event_id) (drain "!r" none "@u" (run calls [])).1
    ≡ "1" ∷ "3" ∷ []
unfolding run add drain get set
drained = refl
