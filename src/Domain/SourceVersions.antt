-- ===== src/Domain/SourceVersions.antt =====
-- `Mapping[str, int]`: source versions, and Python's order-insensitive `dict(a) == dict(b)`.
use harmony_takehome.Prelude.{
  ℕ, String, Bool, true, false, ◌&&◌, Option, none, some, List, [], ◌∷◌, ◌==◌, string_eq, nat_eq,
  option_eq, length, nat_eqb,
}

abbrev pub Versions : Type 0
Versions = List (String × ℕ)

unfoldable pub version_of : String → Versions → Option ℕ
version_of name [] = none
version_of name ((k, v) ∷ rest) =
    let found = version_of name rest in elim (k == name) [ true ↦ some v | false ↦ found ]

unfoldable pub versions_within : Versions → Versions → Bool
unfolding version_of
versions_within [] other = true
versions_within ((k, v) ∷ rest) other = version_of k other == some v && versions_within rest other

unfoldable pub versions_eqb : Versions → Versions → Bool
unfolding versions_within
versions_eqb a b = nat_eqb (length a) (length b) && versions_within a b
