-- ===== src/Strings/Tests.antt =====
-- Texts and numbers run through the casts and the builder.
use umbongo.Base.{ℕ, ◌≡◌, ◌^◌, refl, List, [], ◌∷◌, some, none, if◌then◌else◌, ltb, ◌&&◌, arith}
use umbongo.Strings.Cast.{cast, cast_lem, all_digits, value_from}
use umbongo.Strings.Builder.{append_single, opt}
use umbongo.Strings.Builder.Print.{cast-append_single}

-- "256", which a byte does not hold.
abbrev too_large : List ℕ
too_large = 50 ∷ 53 ∷ 54 ∷ []

abbrev hex_opts : List ℕ
hex_opts = 58 ∷ 104 ∷ 57 ∷ 0 ∷ []

cast_test : cast 8 too_large ≡ none
unfolding cast
cast_test = refl

hex_test :
    append_single hex_opts 255 ≡ some (48 ∷ 120 ∷ 48 ∷ 48 ∷ 48 ∷ 48 ∷ 48 ∷ 48 ∷ 48 ∷ 102 ∷ 102 ∷ [])
unfolding append_single umbongo.Strings.Builder.digits_of umbongo.Strings.Builder.pad_with
hex_test = refl

cast_lem_example : cast 8 too_large ≡ (
    if all_digits too_large && ltb (value_from 0 too_large) (2 ^ 8)
    then some (value_from 0 too_large)
    else none)
cast_lem_example = cast_lem 8 too_large

cast-append_single_example :
    (text : List ℕ) × ((append_single [] 90210 ≡ some text) × (cast 64 text ≡ some 90210))
cast-append_single_example = cast-append_single 90210 (omega arith)
