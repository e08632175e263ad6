-- ===== src/Base/Strings.antt =====
-- Texts as keys: their equality is decided.
use Prim.Native.String.{String}
use text.Mathlib.Text.{◌==◌ as str_eq}
use text.Mathlib.TextEquality.{eq_iff}
use mathlib.Core.Path.{◌≡◌, refl}
use mathlib.Core.Bool.{Bool, true, false, false≢true}
use mathlib.Core.Logic.{◌↔◌}

abbrev pub decided_by {ℓ} : {A : Type ℓ} (b : Bool) → ((b ≡ true) ↔ A) → Dec A
decided_by true h = yes (h.0 refl)
decided_by false h = no (λ a. false≢true (h.1 a))

unfoldable pub String-discrete : Discrete String
String-discrete s t = decided_by (str_eq s t) (eq_iff s t)
