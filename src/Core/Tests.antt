-- ===== src/Core/Tests.antt =====
-- Displayed text on concrete inputs.
use onetui.Base.{◌↔◌, ◌≡◌, refl, [], ◌∷◌, All}
use onetui.Text.{Text, str}
use onetui.Core.Display.{display}
use onetui.Core.Display.Safe.{IsSafe, display-IsSafe, IsShown, display_keeps}

escaped : display (27 ∷ 0x202e ∷ b'a' ∷ 10 ∷ []) ≡ str "\\u{1b}\\u{202e}a\\n"
unfolding display
escaped = refl

display-IsSafe_example : All IsSafe (display (27 ∷ 0x202e ∷ b'a' ∷ []))
display-IsSafe_example = display-IsSafe (27 ∷ 0x202e ∷ b'a' ∷ [])

abbrev steering : Text
steering = b'o' ∷ b'k' ∷ 0x202e ∷ []

display_keeps_example : (display steering ≡ steering) ↔ All IsShown steering
display_keeps_example = display_keeps steering
