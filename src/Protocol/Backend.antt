-- ===== src/Protocol/Backend.antt =====
-- `BackendSelectionEvidence.Validate` of browserprotocol/validation.go with its helpers.
use openlinker_plugin.Base.{
  ℕ, String, Bool, true, false, ◌||◌, ◌&&◌, not, Option, none, List, [], ◌∷◌, ltb, leb, ◌==◌, ◌=s=◌,
  if◌then◌else◌, len, length, codes, all_codes, split_dots, is_digit, between, ◌≡◌, refl, ◌⊎◌, inl,
  inr, arith, eq_iff,
}
use openlinker_plugin.Protocol.Types.{Failure, BackendSelectionEvidence}
use openlinker_plugin.Protocol.Failure.Validate.{reject}
use openlinker_plugin.Protocol.Identifiers.{valid_opaque_id}

abbrev pub backend_official_chrome : String
backend_official_chrome = "official_chrome_extension"

abbrev pub backend_isolated : String
backend_isolated = "isolated_chromium"

abbrev pub mode_openlinker_native_chrome : String
mode_openlinker_native_chrome = "openlinker-native-chrome"

abbrev pub mode_official_chrome_alias : String
mode_official_chrome_alias = "official-chrome"

-- validLowerHex
unfoldable pub valid_lower_hex : String → ℕ → Bool
valid_lower_hex value expected_length =
    len value == expected_length && all_codes (λ c. is_digit c || between b'a' b'f' c) (codes value)

-- validChromeExtensionID
unfoldable pub valid_chrome_extension_id : String → Bool
valid_chrome_extension_id value = len value == 32 && all_codes (between b'a' b'p') (codes value)

-- The checks of one part. A rune of more than one byte is refused as no digit, so the number of
-- runes stands for the number of bytes.
valid_version_part : List ℕ → Bool
valid_version_part [] = false
valid_version_part (c ∷ cs) =
    leb (length (c ∷ cs)) 8 && not (leb 1 (length cs) && c == b'0') && all_codes is_digit (c ∷ cs)

is_zero_part : List ℕ → Bool
is_zero_part (c ∷ []) = c == b'0'
is_zero_part _ = false

valid_version_parts : List (List ℕ) → Bool
unfolding valid_version_part
valid_version_parts [] = true
valid_version_parts (part ∷ parts) = valid_version_part part && valid_version_parts parts

valid_major : List (List ℕ) → Bool
unfolding is_zero_part
valid_major [] = true
valid_major (part ∷ parts) = not (is_zero_part part)

-- validBrowserVersion
unfoldable pub valid_browser_version : String → Bool
unfolding valid_version_parts valid_major
valid_browser_version value =
    if value =s= "" || ltb 64 (len value)
    then false
    else let parts = split_dots (codes value) in
      not (ltb (length parts) 2 || ltb 4 (length parts))
      && valid_version_parts parts
      && valid_major parts

-- validBackendFallbackReason
unfoldable pub valid_backend_fallback_reason : String → Bool
valid_backend_fallback_reason value =
    value =s= "official_assets_unavailable"
    || value =s= "official_assets_invalid"
    || value =s= "official_platform_unsupported"
    || value =s= "official_sandbox_unavailable"
    || value =s= "official_chrome_start_failed"
    || value =s= "official_extension_unavailable"
    || value =s= "official_native_host_unavailable"
    || value =s= "official_protocol_mismatch"
    || value =s= "official_capability_incomplete"
    || value =s= "official_profile_preflight_failed"
    || value =s= "official_policy_enforcement_unavailable"
    || value =s= "official_egress_preflight_failed"

-- What the evidence may hold beside the backend's name.
backend_assets : BackendSelectionEvidence → Option Failure
backend_assets e =
    if e.selected_backend =s= backend_isolated
    then (if not (e.asset_manifest_sha256 =s= "")
          || not (e.extension_id =s= "")
          || not (e.extension_version =s= "")
          || not (e.native_host_protocol =s= "")
          || not (e.profile_generation == 0)
          || e.session_recovered
        then reject "isolated backend contains native Chrome evidence"
        else none)
    else if not (valid_lower_hex e.asset_manifest_sha256 64)
        || not (valid_chrome_extension_id e.extension_id)
        || not (valid_browser_version e.extension_version)
        || not (valid_opaque_id e.native_host_protocol 64)
        || e.profile_generation == 0
    then reject "official Chrome backend evidence is invalid"
    else none

-- BackendSelectionEvidence.Validate
unfoldable pub validate_selection_evidence : BackendSelectionEvidence → Option Failure
unfolding backend_assets
validate_selection_evidence e =
    if not (e.requested_mode =s= "auto")
      && not (e.requested_mode =s= mode_openlinker_native_chrome)
      && not (e.requested_mode =s= mode_official_chrome_alias)
      && not (e.requested_mode =s= "isolated")
    then reject "browser backend request evidence is invalid"
    else if not (e.selected_backend =s= backend_official_chrome)
        && not (e.selected_backend =s= backend_isolated)
    then reject "browser backend selection evidence is invalid"
    else if ((e.requested_mode =s= mode_openlinker_native_chrome
            || e.requested_mode =s= mode_official_chrome_alias)
          && not (e.selected_backend =s= backend_official_chrome))
        || (e.requested_mode =s= "isolated" && not (e.selected_backend =s= backend_isolated))
    then reject "strict browser backend selection evidence is invalid"
    else if not (e.fallback_reason =s= "")
        && (not (e.requested_mode =s= "auto")
            || not (e.selected_backend =s= backend_isolated)
            || not (valid_backend_fallback_reason e.fallback_reason))
    then reject "browser backend fallback evidence is invalid"
    else backend_assets e

-- The evidence of the isolated backend, for a mode and a reason.
abbrev pub isolated_evidence : String → String → BackendSelectionEvidence
isolated_evidence mode reason = record {
  requested_mode = mode;
  selected_backend = backend_isolated;
  fallback_reason = reason;
  asset_manifest_sha256 = "";
  extension_id = "";
  extension_version = "";
  native_host_protocol = "";
  profile_generation = 0;
  session_recovered = false;
}

abbrev pub ValidReason : String → Type 0
ValidReason reason = (reason ≡ "") ⊎ (valid_backend_fallback_reason reason ≡ true)

-- Evidence for the isolated backend with a documented reason or none is valid.
pub reason-valid :
    (reason : String)
    → ValidReason reason
    → validate_selection_evidence (isolated_evidence "auto" reason) ≡ none
unfolding validate_selection_evidence backend_assets
reason-valid reason (inl h) = rw h refl
reason-valid reason (inr h) = ground arith

pub isolated-valid :
    (mode : String)
    → (mode =s= "isolated") ≡ true
    → validate_selection_evidence (isolated_evidence mode "") ≡ none
unfolding validate_selection_evidence backend_assets
isolated-valid mode h = rw ((eq_iff mode "isolated").0 h) refl
