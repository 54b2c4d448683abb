-- ===== src/PathSecurity.antt =====
-- path_security.py: the check of an identifier that becomes the name of a file.
use Prim.Native.String.{String}
use Prim.Native.Char.{code}
use agent_gear.Common.{ℕ, suc, Bool, false, ◌||◌, is_blank, ltb, ◌==◌}
use agent_gear.Errors.{Result, ok, invalid_identifier}
use agent_gear.Errors.Checks.{◌>>◌, raise_if}

-- `len(value)`
unfoldable pub text_length : String → ℕ
text_length String.[] = 0
text_length (String.◌∷◌ c s) = suc (text_length s)

-- `_ILLEGAL_FILENAME_CHARS`: the control characters and < > : " / \ | ? *, by their code points.
abbrev pub is_illegal : ℕ → Bool
is_illegal c =
    ltb c 32
    || (c == 60)
    || (c == 62)
    || (c == 58)
    || (c == 34)
    || (c == 47)
    || (c == 92)
    || (c == 124)
    || (c == 63)
    || (c == 42)

unfoldable pub has_illegal : String → Bool
has_illegal String.[] = false
has_illegal (String.◌∷◌ c s) = is_illegal (code c) || has_illegal s

unfoldable pub validate_persistence_safe_id : String → Result String
unfolding text_length has_illegal
validate_persistence_safe_id value = do
  raise_if (is_blank value) invalid_identifier
  raise_if (ltb 150 (text_length value)) invalid_identifier
  raise_if (has_illegal value) invalid_identifier
  ok value
