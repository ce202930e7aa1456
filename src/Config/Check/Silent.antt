-- ===== src/Config/Check/Silent.antt =====
-- A validator without errors had none to report.
use koala_v.Prelude.{Text, [], ◌∷◌, Bool, true, false, ◌≡◌, refl, arith, if◌then◌else◌}
use koala_v.Config.Check.{Validator, add_error, report}

pub add_error_silent : (field message : Text) (v : Validator) → add_error field message v ≡ [] → ⊥
unfolding add_error
add_error_silent field message [] h = absurd (ground (arith, h))
add_error_silent field message (e ∷ v) h = absurd (ground (arith, h))

pub report_silent :
    (bad : Bool) (field message : Text) (v : Validator)
    → report bad field message v ≡ []
    → (bad ≡ false) × (v ≡ [])
unfolding report
report_silent true field message v h = absurd (add_error_silent field message v h)
report_silent false field message v h = (refl, h)

-- A field that is missing or wrong is reported in both cases.
pub either_silent :
    (b bad : Bool) (f m f' m' : Text) (v : Validator)
    → (if b then add_error f m v else report bad f' m' v) ≡ []
    → (b ≡ false) × (bad ≡ false) × (v ≡ [])
either_silent true bad f m f' m' v h = absurd (add_error_silent f m v h)
either_silent false bad f m f' m' v h = let (e, h₁) = report_silent bad f' m' v h in (refl, e, h₁)
