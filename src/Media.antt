-- ===== src/Media.antt =====
-- packages/transport-matrix/src/pending-media.ts, `PendingMediaStore`: media that wait for the message of
-- their sender.
pub mod Drain
mod Tests
use Prim.Native.String
use zooid.Dict.{Dict, delete, get, set}
use zooid.Prelude.{
  List, Option, String, [], default, filter, if◌then◌else◌, length, ltb, not, ℕ, ◌++◌, ◌==◌, ◌∷◌,
}

pub record MediaInfo : Type 0 where
  pub mimetype : Option String
  pub size : Option ℕ
  pub w : Option ℕ
  pub h : Option ℕ

pub record PendingMediaItem : Type 0 where
  pub event_id : String
  pub sender : String
  pub msgtype : String
  pub body : String
  pub filename : Option String
  pub url : String
  pub info : Option MediaInfo

abbrev pub PendingMediaStore : Type 0
PendingMediaStore = Dict (List PendingMediaItem)

unfoldable pub key : String → Option String → String
key room thread = String.◌++◌ room (String.◌++◌ " " (default thread "main"))

abbrev pub queue : String → PendingMediaStore → List PendingMediaItem
queue k c = default (get k c) []

-- The loop of `add` that drops the oldest items: `MAX_MEDIA_PER_TURN` is 8.
unfoldable pub shift_over : List PendingMediaItem → List PendingMediaItem
shift_over [] = []
shift_over (x ∷ xs) = if ltb 8 (length (x ∷ xs)) then shift_over xs else x ∷ xs

unfoldable pub add :
    String → Option String → PendingMediaItem → PendingMediaStore → PendingMediaStore
unfolding key shift_over
add room thread item c =
    set (key room thread) (shift_over (queue (key room thread) c ++ item ∷ [])) c

-- What is left of a queue.
abbrev pub keep : String → List PendingMediaItem → PendingMediaStore → PendingMediaStore
keep k [] c = delete k c
keep k (x ∷ xs) c = set k (x ∷ xs) c

unfoldable pub drain :
    String → Option String → String → PendingMediaStore → PendingMediaStore × List PendingMediaItem
unfolding key
drain room thread sender c =
    let k = key room thread in
    let mine = filter (λ i. i.sender == sender) (queue k c) in
    let rest = filter (λ i. not (i.sender == sender)) (queue k c) in (keep k rest c, mine)
