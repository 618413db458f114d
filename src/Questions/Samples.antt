-- ===== src/Questions/Samples.antt =====
-- A form of one field with two choices, for the tests.
use zooid.Forms.{ElicitationSchema}
use zooid.Prelude.{[], none, some, ℕ, ◌∷◌}
use zooid.Questions.{EnumField}
use zooid.Schemas.Samples.{colour}

abbrev pub one_colour : ElicitationSchema ℕ
one_colour = record { properties = some (("colour", colour) ∷ []); required = none }

abbrev pub colour_field : EnumField
colour_field = record { name = "colour"; choices = "red" ∷ "blue" ∷ [] }
