-- ===== src/Mentions/Tests.antt =====
-- `extractMentions` at texts.
use zooid.Mentions.{extract_mentions}
use zooid.Prelude.{[], none, refl, some, ◌∷◌, ◌≡◌}

samples :
    (extract_mentions some
        (record { user_ids = []; body = some "hi @a.b:x.org, and @c:y"; formatted_body = none })
      ≡ some ("@a.b:x.org" ∷ "@c:y" ∷ []))
    × (extract_mentions some (record {
      user_ids = "@q:z" ∷ [];
      body = some "hi @a:x";
      formatted_body = some "<a href=\"https://matrix.to/#/@u:v\">u</a>";
    })
        ≡ some ("@q:z" ∷ "@u:v" ∷ []))
unfolding extract_mentions
samples = (refl, refl)
