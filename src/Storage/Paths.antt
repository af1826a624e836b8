-- ===== src/Storage/Paths.antt =====
-- The paths of `LocalBodyStore` in packages/core/decrypt0rx_core/storage.py.
use decrypt0r_x.Prelude.{◌≡◌, false, List, [], ◌∷◌}
use decrypt0r_x.Text.{Text, codes, starts_with, contains}

abbrev two_dots : Text
two_dots = codes ".."

-- what holds of the parts between the slashes of a text: no two dots in a row, and no slash in front
abbrev AreClean : List Text → Type 0
AreClean [] = Unit
AreClean (t ∷ parts) =
    (contains two_dots t ≡ false) × (starts_with (codes "/") t ≡ false) × AreClean parts

AllFree : List Text → Type 0
AllFree [] = Unit
AllFree (t ∷ parts) = (contains two_dots t ≡ false) × AllFree parts

AllSlashless : List Text → Type 0
AllSlashless [] = Unit
AllSlashless (t ∷ parts) = (starts_with (codes "/") t ≡ false) × AllSlashless parts
