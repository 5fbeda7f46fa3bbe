-- ===== src/Classes/Tests.antt =====
-- A model of 4 GiB, on a phone of 8 GiB.
use phoneborg.Shared.{◌≡◌, refl, true, [], ◌∷◌, str_eq, any}
use phoneborg.Classes.{class_of, is_class, fits, fits_classes}
use phoneborg.Classes.Fit.{fits_classes-fits}

large_phones : fits_classes 4_294_967_296 ≡ "l" ∷ "xl" ∷ []
unfolding fits_classes
large_phones = refl

fits_classes-fits_example :
    (is_class (class_of 8_589_934_592) ≡ true)
    × (any (λ id. str_eq id (class_of 8_589_934_592)) (fits_classes 4_294_967_296) ≡ true
        → fits 4_294_967_296 8_589_934_592 ≡ true)
fits_classes-fits_example = fits_classes-fits 4_294_967_296 8_589_934_592
