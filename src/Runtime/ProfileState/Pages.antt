-- ===== src/Runtime/ProfileState/Pages.antt =====
-- `validatePageContinuationState` of browserruntime/page_continuation.go. `url.Parse` and `String`
-- of net/url, `time.Parse`, `net.ParseIP` and `unicode.ToLower` are arguments; a URL is kept as its
-- bytes, of which `len` counts.
pub mod Accepts
use openlinker_plugin.Base.{
  ℕ, String, Bool, true, false, ◌||◌, ◌&&◌, not, Option, none, some, List, [], ◌∷◌, ltb, ◌==◌,
  ◌=s=◌, if◌then◌else◌, length, has, has_code, same_codes, codes, hex_decode,
}
use openlinker_plugin.Network.Hosts.{looks_like_ip_literal, ends_with, to_lower}
use openlinker_plugin.Runtime.ProfileState.Budgets.{is_sha256}
use openlinker_plugin.Runtime.ProfileState.Files.{
  FileInfo, Look, missing, unreadable, found, StateFile, Verdict, ◌then◌, is_private_file,
}

abbrev pub max_page_continuation_bytes : ℕ
max_page_continuation_bytes = 524288

abbrev pub max_page_continuation_entries : ℕ
max_page_continuation_entries = 32

abbrev pub max_page_continuation_url : ℕ
max_page_continuation_url = 8192

pub record PageEntry : Type 0 where
  pub session_key : String
  pub url : List ℕ
  pub updated_at : String

pub record PageIndex : Type 0 where
  pub contract_id : String
  pub entries : List PageEntry

-- What the validation reads of a `*url.URL`.
pub record PageUrl : Type 0 where
  pub scheme : List ℕ
  pub has_user : Bool
  pub hostname : List ℕ
  pub host : List ℕ
  pub fragment : List ℕ

-- The functions of the Go library that the validation calls.
pub record Library : Type 0 where
  pub parse : List ℕ → Option PageUrl  -- url.Parse
  pub render : PageUrl → List ℕ  -- URL.String
  pub lower_rune : ℕ → ℕ  -- unicode.ToLower
  pub is_ip : List ℕ → Bool  -- net.ParseIP(host) != nil
  pub is_utc_time : String → Bool  -- a time in RFC 3339 whose location is UTC

module _ (library : Library) where
  abbrev pub lower : List ℕ → List ℕ
  lower = to_lower library.lower_rune

  abbrev pub refused_scheme : List ℕ → Bool
  refused_scheme scheme =
      not (same_codes scheme (codes "http")) && not (same_codes scheme (codes "https"))

  abbrev pub refused_host : List ℕ → Bool
  refused_host host =
      length host == 0
      || looks_like_ip_literal library.lower_rune library.is_ip host
      || not (has_code b'.' host)
      || ends_with (codes ".local") host
      || ends_with (codes ".internal") host

  -- The URL without its fragment and with a lower-case host, as text.
  abbrev pub normal_text : PageUrl → List ℕ
  normal_text url = library.render (record url { fragment = []; host = lower url.host })

  within_limit : List ℕ → Option (List ℕ)
  within_limit text = if ltb max_page_continuation_url (length text) then none else some text

  normalize_parsed : Option PageUrl → Option (List ℕ)
  unfolding within_limit
  normalize_parsed none = none
  normalize_parsed (some url) =
      if refused_scheme url.scheme || url.has_user || refused_host (lower url.hostname)
      then none
      else within_limit (normal_text url)

  -- normalizePageContinuationURL; every error is the same.
  unfoldable pub normalize_page_url : List ℕ → Option (List ℕ)
  unfolding normalize_parsed
  normalize_page_url raw =
      if length raw == 0 || ltb max_page_continuation_url (length raw)
      then none
      else normalize_parsed (library.parse raw)

  same_text : Option (List ℕ) → List ℕ → Bool
  same_text none raw = false
  same_text (some normalized) raw = same_codes normalized raw

  -- validatePageContinuationURL
  unfoldable pub validate_page_url : List ℕ → Verdict
  unfolding same_text
  validate_page_url raw =
      if length raw == 0 || ltb max_page_continuation_url (length raw)
      then some "Browser page continuation URL is invalid"
      else if not (same_text (normalize_page_url raw) raw)
      then some "Browser page continuation URL is invalid"
      else none

  -- The body of the loop.
  unfoldable pub check_page_entry : List String → PageEntry → Verdict
  check_page_entry seen entry =
      if not (is_sha256 (hex_decode (codes entry.session_key)))
      then some "Browser page continuation Session key is invalid"
      else if has entry.session_key seen
      then some "Browser page continuation Session key is duplicated"
      else validate_page_url entry.url
        then (if library.is_utc_time entry.updated_at
            then none
            else some "Browser page continuation timestamp is invalid")

  unfoldable pub check_page_entries : List String → List PageEntry → Verdict
  unfolding check_page_entry
  check_page_entries seen [] = none
  check_page_entries seen (entry ∷ rest) =
      check_page_entry seen entry then check_page_entries (entry.session_key ∷ seen) rest

  -- What is checked of the decoded index.
  unfoldable pub check_page_index : PageIndex → Verdict
  unfolding check_page_entries
  check_page_index index =
      if not (index.contract_id =s= "openlinker.browser.page-continuation.v1")
        || ltb max_page_continuation_entries (length index.entries)
      then some "Browser page continuation contract is invalid"
      else check_page_entries [] index.entries

  check_decoded_index : StateFile PageIndex → Option PageIndex → Verdict
  check_decoded_index file none = some "Browser page continuation payload is invalid"
  check_decoded_index file (some index) =
      if file.trailing
      then some "Browser page continuation payload has trailing data"
      else check_page_index index

  check_page_contents : StateFile PageIndex → Option (List ℕ) → Verdict
  unfolding check_decoded_index
  check_page_contents file none = some "Browser page continuation file is unreadable"
  check_page_contents file (some raw) =
      if ltb max_page_continuation_bytes (length raw)
      then some "Browser page continuation file is unreadable"
      else check_decoded_index file file.decoded

  check_page_look : StateFile PageIndex → Look → Verdict
  unfolding check_page_contents
  check_page_look file missing = none
  check_page_look file unreadable = some "Browser page continuation file is invalid"
  check_page_look file (found info) =
      if not (is_private_file info max_page_continuation_bytes)
      then some "Browser page continuation file is invalid"
      else check_page_contents file file.contents

  -- validatePageContinuationState
  unfoldable pub validate_page_continuation_state : StateFile PageIndex → Verdict
  unfolding check_page_look
  validate_page_continuation_state file = check_page_look file file.file
