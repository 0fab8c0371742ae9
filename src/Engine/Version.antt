-- ===== src/Engine/Version.antt =====
-- `parse_version` of services/workflow_engine/src/forgeai_workflow_engine/definition.py, which
-- capability_registry/definition.py and prompts/versioning.py repeat. A text is its code points.
-- What Python knows of characters beyond ASCII (`str.isdigit`, and the decimal value that `int`
-- takes) is the parameter `unicode`.
pub mod Latest
use forge_ai_autonomous_soft.Common.{
  ℕ, ◌+◌, ◌-◌, ◌*◌, Bool, false, ◌&&◌, ◌||◌, Option, none, some, List, [], ◌∷◌, Text, ltb, leb, eqb,
  if◌then◌else◌, all, length, split,
}
use forge_ai_autonomous_soft.Engine.Errors.{Result, ok, err, value_error, invalid_version, ◌>>=◌}

pub record Unicode : Type 0 where
  pub other_digit : ℕ → Bool
  pub other_decimal : ℕ → Option ℕ

-- (major, minor, patch)
abbrev pub Triple : Type 0
Triple = ℕ × ℕ × ℕ

-- `<=` of such tuples.
abbrev pub triple_leb : Triple → Triple → Bool
triple_leb (a, b, c) (x, y, z) = ltb a x || (eqb a x && (ltb b y || (eqb b y && leb c z)))

module _ (unicode : Unicode) where
  unfoldable pub char_is_digit : ℕ → Bool
  char_is_digit c = if ltb c 128 then leb 48 c && leb c 57 else unicode.other_digit c

  unfoldable pub char_decimal : ℕ → Option ℕ
  char_decimal c =
      if ltb c 128
      then (if leb 48 c && leb c 57 then some (c - 48) else none)
      else unicode.other_decimal c

  -- `part.isdigit()`: false of the empty text.
  unfoldable pub is_digit : Text → Bool
  unfolding char_is_digit
  is_digit [] = false
  is_digit (c ∷ t) = all char_is_digit (c ∷ t)

  unfoldable pub int_from : ℕ → Text → Result ℕ
  unfolding char_decimal
  int_from acc [] = ok acc
  int_from acc (c ∷ t) = elim (char_decimal c) [
    | none ↦ err value_error
    | some d ↦ int_from (acc * 10 + d) t
  ]

  -- `int(part)` of a text with no sign or space; CPython refuses more than 4300 digits.
  unfoldable pub int : Text → Result ℕ
  unfolding int_from
  int t = if ltb 4300 (length t) then err value_error else int_from 0 t

  unfoldable pub parse_parts : Text → List Text → Result Triple
  unfolding is_digit int
  parse_parts version (p ∷ q ∷ r ∷ []) =
      if is_digit p && is_digit q && is_digit r
      then (do major ← int p; minor ← int q; patch ← int r; ok (major, minor, patch))
      else err (invalid_version version)
  parse_parts version _ = err (invalid_version version)

  unfoldable pub parse_version : Text → Result Triple
  unfolding parse_parts
  parse_version version = parse_parts version (split b'.' version)
