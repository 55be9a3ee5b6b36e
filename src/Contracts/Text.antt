-- ===== src/Contracts/Text.antt =====
-- The identifier pattern `^[A-Za-z0-9][A-Za-z0-9._:@-]{0,255}$` and Python's `str` tests.
use Prim.Native.Char.{code}
use Prim.Native.String.{String, ◌∷◌ as str_cons}
use uwo_shared_platform.Prelude.{
  ℕ, zero, suc, Bool, true, false, not, ◌&&◌, ◌||◌, List, [], ◌∷◌, leb, eqb, length, all,
}

-- the code points of a text
abbrev pub codes : String → List ℕ
codes String.[] = []
codes (String.◌∷◌ c s) = code c ∷ codes s

abbrev is_alphanumeric : ℕ → Bool
is_alphanumeric c =
    (leb b'A' c && leb c b'Z') || (leb b'a' c && leb c b'z') || (leb b'0' c && leb c b'9')

abbrev is_identifier_char : ℕ → Bool
is_identifier_char c =
    is_alphanumeric c || eqb c b'.' || eqb c b'_' || eqb c b':' || eqb c b'@' || eqb c b'-'

matches_identifier : List ℕ → Bool
matches_identifier [] = false
matches_identifier (c ∷ cs) = is_alphanumeric c && all is_identifier_char cs && leb (length cs) 255

-- `_identifier`, `_require_identifier`: the pattern matches the whole text
unfoldable pub is_identifier : String → Bool
unfolding matches_identifier
is_identifier s = matches_identifier (codes s)

-- the characters that `str.strip` takes off
abbrev is_space : ℕ → Bool
is_space c =
    (leb 9 c && leb c 13)
    || (leb 28 c && leb c 32)
    || eqb c 0x85
    || eqb c 0xa0
    || eqb c 0x1680
    || (leb 0x2000 c && leb c 0x200a)
    || eqb c 0x2028
    || eqb c 0x2029
    || eqb c 0x202f
    || eqb c 0x205f
    || eqb c 0x3000

-- `not key.strip() or len(key) > 128`, negated
unfoldable pub is_key : String → Bool
is_key s = not (all is_space (codes s)) && leb (length (codes s)) 128

-- `_require_text`
unfoldable pub is_text : String → Bool
is_text s = not (all is_space (codes s)) && leb (length (codes s)) 256

-- `s[:n]`
abbrev pub take_chars : ℕ → String → String
take_chars zero s = ""
take_chars (suc n) String.[] = ""
take_chars (suc n) (String.◌∷◌ c s) = str_cons c (take_chars n s)

starts_with : List ℕ → List ℕ → Bool
starts_with [] text = true
starts_with (c ∷ cs) [] = false
starts_with (c ∷ cs) (d ∷ ds) = eqb c d && starts_with cs ds

contains_term : List ℕ → List ℕ → Bool
unfolding starts_with
contains_term term [] = starts_with term []
contains_term term (c ∷ cs) = starts_with term (c ∷ cs) || contains_term term cs

-- `term in text`
unfoldable pub is_substring : String → String → Bool
unfolding contains_term
is_substring term text = contains_term (codes term) (codes text)
