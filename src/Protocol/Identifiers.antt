-- ===== src/Protocol/Identifiers.antt =====
-- packages/browser-runtime/browserprotocol/identifiers.go
use openlinker_plugin.Base.{
  ℕ, ◌+◌, String, ◌≡◌, Bool, true, false, ◌&&◌, ◌||◌, not, List, [], ◌∷◌, arith, ltb, ◌==◌, ◌=s=◌,
  if◌then◌else◌, codes, len, is_digit, is_lower, is_upper, between, all_codes, trim_space, All,
  and-true,
}

abbrev uuid_rune : ℕ → ℕ → Bool
uuid_rune index char =
    if index == 8 || index == 13 || index == 18 || index == 23
    then char == b'-'
    else is_digit char || between b'a' b'f' char

-- The loop over the runes. Go counts bytes; a rune of more than one byte is refused where it
-- stands, so up to there the two counts agree.
uuid_runes : ℕ → List ℕ → Bool
uuid_runes index [] = true
uuid_runes index (char ∷ rest) = uuid_rune index char && uuid_runes (index + 1) rest

-- `value == strings.ToLower(value)`, for a value with no upper-case letter outside ASCII; any
-- other value is refused by the loop as well.
is_lower_case : String → Bool
is_lower_case value = all_codes (λ c. not (is_upper c)) (codes value)

unfoldable pub is_valid_uuid : String → Bool
unfolding is_lower_case uuid_runes
is_valid_uuid value =
    if not (len value == 36) || not (is_lower_case value)
    then false
    else if uuid_runes 0 (codes value)
    then not (value =s= "00000000-0000-0000-0000-000000000000")
    else false

abbrev opaque_rune : ℕ → Bool
opaque_rune c =
    is_lower c || is_upper c || is_digit c || (c == b'.' || c == b'_' || c == b':' || c == b'-')

unfoldable pub valid_opaque_id : String → ℕ → Bool
valid_opaque_id value limit =
    if value =s= "" || ltb limit (len value) || not (trim_space value =s= value)
    then false
    else all_codes opaque_rune (codes value)

-- No rune of a valid identifier is a vertical bar.
uuid_runes-no_bar :
    (index : ℕ) (cs : List ℕ) → uuid_runes index cs ≡ true → All (λ c. (c == b'|') ≡ false) cs
unfolding uuid_runes
uuid_runes-no_bar index [] h = tt
uuid_runes-no_bar index (c ∷ cs) h = (ground arith, uuid_runes-no_bar (index + 1) cs (and-true h).1)

pub uuid-no_bar :
    (value : String) → is_valid_uuid value ≡ true → All (λ c. (c == b'|') ≡ false) (codes value)
unfolding is_valid_uuid
uuid-no_bar value h = uuid_runes-no_bar 0 (codes value) (ground arith)
