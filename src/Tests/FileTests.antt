-- ===== src/Tests/FileTests.antt =====
-- The theorems on profile state files and revocations at concrete files.
use openlinker_plugin.Runtime.Lease.{same_strings, validate_static}
use openlinker_plugin.Network.Hosts.{ends_with, looks_like_ip_literal, trim_codes, trim_dot}
use openlinker_plugin.Base.{
  ℕ, zero, suc, ◌<◌, ◌≡◌, ◌≢◌, ◌↔◌, refl, ap, true, false, Option, none, some, List, [], ◌∷◌, arith,
  length, All, codes, pos, all_codes, has, has_code, hex_decode, same_codes, split_dots,
}
use openlinker_plugin.Protocol.Types.{Identity, Failure}
use openlinker_plugin.Runtime.ProfileState.Budgets.{
  BudgetDocument, BudgetEntry, check_budget_document, valid_origin_budget_times,
}
use openlinker_plugin.Runtime.ProfileState.Budgets.Times.{ValidDocument}
use openlinker_plugin.Runtime.ProfileState.Budgets.Accepts.{check_budget_document-Valid}
use openlinker_plugin.Runtime.ProfileState.Pages.{
  Library, PageIndex, PageUrl, check_page_index, normalize_page_url, validate_page_url,
}
use openlinker_plugin.Runtime.Revocations.{
  TimeForm, LeaseFiles, System, absent, present, RevocationIndex, revoke, is_revoked, active_at,
  has_hash, read_revocations,
}
use openlinker_plugin.Client.Lease.{validate_lease}
use openlinker_plugin.Runtime.Revocations.Revokes.{Closed, revoke-Closed}
use openlinker_plugin.Tests.Sample.{identity}

abbrev budget : BudgetEntry
budget = record {
  key = "00112233445566778899aabbccddeeff00112233445566778899aabbccddeeff";
  action_ms = some (pos 10 ∷ pos 20 ∷ []);
  navigation_ms = some [];
  backoff_until_ms = none;
  updated_at_ms = pos 20;
}

abbrev document : BudgetDocument
document = record { contract_id = "openlinker.browser.origin-budgets.v1"; entries = budget ∷ [] }

document_accepted : check_budget_document document ≡ none
unfolding check_budget_document hex_decode all_codes has valid_origin_budget_times
document_accepted = refl

check_budget_document-Valid_example :
    (check_budget_document document ≡ none) ↔ ValidDocument document
check_budget_document-Valid_example = check_budget_document-Valid document

abbrev example_url : PageUrl
example_url = record {
  scheme = codes "https";
  has_user = false;
  hostname = codes "example.com";
  host = codes "example.com";
  fragment = [];
}

abbrev library : Library
library = record {
  parse = λ raw. some example_url;
  render = λ url. codes "https://example.com";
  lower_rune = λ c. c;
  is_ip = λ host. false;
  is_utc_time = λ text. true;
}

abbrev index : PageIndex
index = record {
  contract_id = "openlinker.browser.page-continuation.v1";
  entries =
      record {
        session_key = "00112233445566778899aabbccddeeff00112233445566778899aabbccddeeff";
        url = codes "https://example.com";
        updated_at = "2026-01-01T00:00:00Z";
      }
      ∷ [];
}

-- The same Session key in another spelling passes as another key.
abbrev two_spellings : PageIndex
two_spellings = record {
  contract_id = "openlinker.browser.page-continuation.v1";
  entries =
      record {
        session_key = "00112233445566778899aabbccddeeff00112233445566778899aabbccddeeff";
        url = codes "https://example.com";
        updated_at = "2026-01-01T00:00:00Z";
      }
      ∷ record {
        session_key = "00112233445566778899AABBCCDDEEFF00112233445566778899AABBCCDDEEFF";
        url = codes "https://example.com";
        updated_at = "2026-01-01T00:00:00Z";
      }
      ∷ [];
}

spellings_accepted : check_page_index library two_spellings ≡ none
unfolding check_page_index hex_decode has validate_page_url normalize_page_url same_codes
    looks_like_ip_literal trim_dot trim_codes split_dots has_code ends_with
spellings_accepted = refl

-- A time is written as so many strokes, one more than its number.
abbrev strokes : ℕ → List ℕ
strokes zero = b'x' ∷ []
strokes (suc n) = b'x' ∷ strokes n

abbrev counted : List ℕ → Option ℕ
counted [] = none
counted (c ∷ cs) = some (length cs)

abbrev form : TimeForm
form = record { format = strokes; parse = counted }

length-strokes : (n : ℕ) → length (strokes n) ≡ suc n
length-strokes zero = refl
length-strokes (suc n) = omega (arith, length-strokes n)

counted-strokes : (n : ℕ) → counted (strokes n) ≡ some n
counted-strokes zero = refl
counted-strokes (suc n) = ap some (length-strokes n)

strokes_given : (n : ℕ) → strokes n ≢ []
strokes_given zero h = ground arith
strokes_given (suc n) h = ground arith

abbrev zeros : ℕ → List ℕ
zeros zero = []
zeros (suc n) = 0 ∷ zeros n

abbrev digest : List ℕ → List ℕ
digest text = zeros 32

small_bytes : (text : List ℕ) → All (λ b. b < 256) (digest text)
small_bytes text = ground arith

abbrev no_check : Identity → Option Failure
no_check i = none

abbrev short : RevocationIndex → ℕ
short stored = 100

abbrev files : LeaseFiles
files = record {
  path_valid = true;
  active =
      present (record {
        contract_id = "openlinker.browser.lease.v2";
        expires_at = 9;
        identity = identity;
      });
  revocations = absent;
}

abbrev system : System
system = record { locked = true; index_written = true; active_removed = true }

not_revoked : is_revoked form digest no_check short 4 identity files ≡ some false
unfolding revoke is_revoked read_revocations has_hash active_at validate_lease validate_static
    same_strings
not_revoked = refl

revoked_without_failure : (revoke form digest no_check short 4 identity system files).1 ≡ none
unfolding revoke is_revoked read_revocations has_hash active_at validate_lease validate_static
    same_strings
revoked_without_failure = refl

revoke-Closed_example :
    Closed form digest no_check short counted-strokes strokes_given
      (λ text. refl)
      small_bytes
      4
      identity
      files
      (revoke form digest no_check short 4 identity system files).0
revoke-Closed_example =
    revoke-Closed form digest no_check short counted-strokes strokes_given (λ text. refl)
      small_bytes 4 identity system files not_revoked revoked_without_failure
