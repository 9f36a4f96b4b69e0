-- ===== src/Network/Hosts.antt =====
-- Host names: packages/browser-runtime/netpolicy/host.go and the Go string functions it and its
-- callers use. A host is kept as its runes; `unicode.ToLower` and `net.ParseIP` are arguments.
use openlinker_plugin.Base.{
  ℕ, Bool, true, false, ◌||◌, ◌&&◌, not, List, [], ◌∷◌, map, ltb, ◌==◌, if◌then◌else◌, length,
  has_code, same_codes, all_codes, is_digit, between, codes, is_space, split_dots,
}

trim_left_codes : List ℕ → List ℕ
trim_left_codes [] = []
trim_left_codes (c ∷ cs) = if is_space c then trim_left_codes cs else c ∷ cs

-- A space stays only before something that stays.
keep_before_codes : ℕ → List ℕ → List ℕ
keep_before_codes c [] = if is_space c then [] else c ∷ []
keep_before_codes c (d ∷ cs) = c ∷ d ∷ cs

trim_right_codes : List ℕ → List ℕ
unfolding keep_before_codes
trim_right_codes [] = []
trim_right_codes (c ∷ cs) = keep_before_codes c (trim_right_codes cs)

-- strings.TrimSpace
unfoldable pub trim_codes : List ℕ → List ℕ
unfolding trim_left_codes trim_right_codes is_space
trim_codes cs = trim_right_codes (trim_left_codes cs)

-- `strings.TrimSuffix(host, ".")`
unfoldable pub trim_dot : List ℕ → List ℕ
trim_dot [] = []
trim_dot (c ∷ []) = if c == b'.' then [] else c ∷ []
trim_dot (c ∷ d ∷ cs) = c ∷ trim_dot (d ∷ cs)

-- strings.HasSuffix
unfoldable pub ends_with : List ℕ → List ℕ → Bool
ends_with suffix [] = same_codes suffix []
ends_with suffix (c ∷ cs) = same_codes suffix (c ∷ cs) || ends_with suffix cs

-- isHexDigit
abbrev is_hex_digit : ℕ → Bool
is_hex_digit c = is_digit c || between b'a' b'f' c

-- A part whose first character is '0' and the next `c`.
numeric_after_zero : ℕ → List ℕ → Bool
numeric_after_zero c rest =
    if c == b'x'
    then not (length rest == 0) && all_codes is_hex_digit rest
    else is_digit c && all_codes is_digit rest

-- The body of the loop of `LooksLikeIPLiteral`.
unfoldable pub is_numeric_part : List ℕ → Bool
unfolding numeric_after_zero
is_numeric_part [] = false
is_numeric_part (c ∷ []) = is_digit c
is_numeric_part (c ∷ d ∷ rest) =
    if c == b'0'
    then numeric_after_zero d rest
    else is_digit c && is_digit d && all_codes is_digit rest

unfoldable pub all_numeric : List (List ℕ) → Bool
unfolding is_numeric_part
all_numeric [] = true
all_numeric (part ∷ parts) = is_numeric_part part && all_numeric parts

-- strings.ToLower, for a `unicode.ToLower`
abbrev pub to_lower : (ℕ → ℕ) → List ℕ → List ℕ
to_lower lower_rune cs = map lower_rune cs

-- `strings.ContainsAny(host, " /\\@")`
unfoldable pub contains_separator : List ℕ → Bool
contains_separator host =
    has_code b' ' host || has_code b'/' host || has_code 92 host || has_code b'@' host

module _ (lower_rune : ℕ → ℕ) (is_ip : List ℕ → Bool) where
  looks_numeric : List ℕ → Bool
  unfolding all_numeric
  looks_numeric [] = false
  looks_numeric (c ∷ cs) =
      if is_ip (c ∷ cs)
      then true
      else if ltb 4 (length (split_dots (c ∷ cs)))
      then false
      else all_numeric (split_dots (c ∷ cs))

  -- LooksLikeIPLiteral
  unfoldable pub looks_like_ip_literal : List ℕ → Bool
  unfolding looks_numeric
  looks_like_ip_literal raw = looks_numeric (to_lower lower_rune (trim_dot (trim_codes raw)))

  -- IsValidPublicHostname (egressgateway/gateway.go)
  unfoldable pub is_valid_public_hostname : List ℕ → Bool
  unfolding contains_separator
  is_valid_public_hostname host =
      if length host == 0 || contains_separator host
      then false
      else if is_ip host
      then true
      else if looks_like_ip_literal host
      then false
      else not (
          not (has_code b'.' (to_lower lower_rune host))
          || ends_with (codes ".local") (to_lower lower_rune host)
          || ends_with (codes ".internal") (to_lower lower_rune host)
          || ends_with (codes ".localhost") (to_lower lower_rune host)
          || same_codes (to_lower lower_rune host) (codes "metadata.google.internal"))
