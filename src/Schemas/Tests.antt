-- ===== src/Schemas/Tests.antt =====
-- Values at sample properties, and the theorem at one.
use zooid.Dict.{get}
use zooid.Formats.{is_email}
use zooid.Json.{elements, num, str}
use zooid.Prelude.{[], false, map, none, refl, some, true, ◌↔◌, ◌∷◌, ◌≡◌}
use zooid.Schemas.{check_value}
use zooid.Schemas.Accepts.{check_value-Fits}
use zooid.Schemas.Fits.{Fits}
use zooid.Schemas.Samples.{colour, nat_host, short_text}
use zooid.Texts.{units}

checks_choice : check_value nat_host colour (str "green") ≡ some "must be one of: red, blue"
unfolding check_value get units elements
checks_choice = refl

checks_length : check_value nat_host short_text (str "four") ≡ some "must be at least 5 characters"
unfolding check_value get units
checks_length = refl

checks_number :
    check_value nat_host (("type", str "integer") ∷ ("maximum", num 5) ∷ []) (num 6)
    ≡ some "must be ≤ 5"
unfolding check_value get
checks_number = refl

checks_email :
    map is_email ("a@b.c" ∷ "a@b" ∷ "a b@c.d" ∷ "a@.c" ∷ "a@b.c.d" ∷ "a@b@c.d" ∷ "a@b." ∷ [])
    ≡ true ∷ false ∷ false ∷ false ∷ true ∷ false ∷ false ∷ []
unfolding is_email
checks_email = refl

check_value-Fits_example :
    (check_value nat_host colour (str "red") ≡ none) ↔ Fits nat_host colour (str "red")
check_value-Fits_example = check_value-Fits nat_host colour (str "red")
