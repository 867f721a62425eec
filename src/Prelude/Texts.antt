-- ===== src/Prelude/Texts.antt =====
-- Texts: the equality of `str`, and `str::split` on a character.
use Prim.Native.Char.{Char, code}
use Prim.Native.String.{String, [] as empty_text, ◌∷◌ as ◌:>◌}
use mathlib.Core.List.{List, [], ◌∷◌}
use aleo_pool_server.Prelude.Tests.{◌==◌, if◌then◌else◌}
pub use text.Mathlib.Text.{◌==◌ as ◌is◌}

abbrev pub extend : Char → List String → List String
extend c [] = []
extend c (part ∷ parts) = (c :> part) ∷ parts

-- The parts between the separators, one more than there are separators.
unfoldable pub split : Char → String → List String
split separator empty_text = "" ∷ []
split separator (c :> s) =
    let rest = split separator s in if code c == code separator then "" ∷ rest else extend c rest
