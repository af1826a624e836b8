-- ===== src/Tests/Keys.antt =====
-- Keys whose PEM tells their kind.
use decrypt0r_x.Prelude.{zero, suc, ◌≡◌, refl, [], ◌∷◌, Option, none, some}
use decrypt0r_x.Text.{Text}
use decrypt0r_x.Pki.Library.{KeyKind, rsa, elliptic, another}

-- a key is its kind, and its PEM and its DER tell it
abbrev pub key_text : KeyKind → Text
key_text (rsa size) = 0 ∷ size ∷ []
key_text (elliptic curve) = 1 ∷ curve
key_text (another class) = 2 ∷ class

abbrev pub key_of : Text → Option KeyKind
key_of [] = none
key_of (zero ∷ []) = none
key_of (zero ∷ size ∷ t) = some (rsa size)
key_of (suc zero ∷ curve) = some (elliptic curve)
key_of (suc (suc n) ∷ class) = some (another class)

pub key_of-key_text : (k : KeyKind) → key_of (key_text k) ≡ some k
key_of-key_text (rsa size) = refl
key_of-key_text (elliptic curve) = refl
key_of-key_text (another class) = refl
