-- ===== src/Identifiers/Framing/Samples.antt =====
-- Framed components.
use pgproof.Common.{List, [], ◌∷◌, ◌≡◌, refl}
use pgproof.Identifiers.Framing.{Component, null, text, number, texts, frame_components}
use pgproof.Identifiers.Framing.Injective.{frame_components-injective}

abbrev location : List Component
location = text "app/\"model\"\n#1" ∷ null ∷ number 1207 ∷ texts ("a" ∷ "\u{1}b" ∷ []) ∷ []

program : Unit {0}
unfolding frame_components
program = tt

framed : frame_components location ≡ "[\"app/\\\"model\\\"\\n#1\",null,1207,[\"a\",\"\\u0001b\"]]"
unfolding program
framed = refl

frame_components-injective_example : location ≡ location
frame_components-injective_example = frame_components-injective location location refl
