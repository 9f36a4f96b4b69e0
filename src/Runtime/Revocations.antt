-- ===== src/Runtime/Revocations.antt =====
-- `FileLease` of browserruntime/lease.go with its index of revoked identities
-- (browserruntime/revocation.go), and `Lease.Validate` of browserclient/client.go. A text is kept
-- as its runes and a time counts nanoseconds. SHA-256 (of the text whose bytes it reads), the
-- RFC 3339 form of a time and the sizes of the JSON files are arguments; what the operating system
-- answers is part of the state or of the call.
pub mod Lists
pub mod Distinct
pub mod Reads
pub mod Index
pub mod Steps
pub mod Revokes
use openlinker_plugin.Base.{
  ℕ, zero, suc, ◌+◌, ◌*◌, String, Bool, true, false, ◌||◌, ◌&&◌, not, Option, none, some, List, [],
  ◌∷◌, ◌++◌, ltb, leb, ◌==◌, ◌=s=◌, if◌then◌else◌, length, same_codes, less_codes, codes,
  hex_decode, hex_encode, ℤ, pos, negsuc,
}
use openlinker_plugin.Protocol.Types.{Identity, Failure, ErrorCode}
use openlinker_plugin.Protocol.Failure.{new_failure, Result, ok, failed}
use openlinker_plugin.Protocol.Failure.Validate.{is_some}
use openlinker_plugin.Runtime.Scope.{decimal}
use openlinker_plugin.Client.Lease.{ActiveLease, validate_lease}
use openlinker_plugin.Runtime.Lease.{validate_static, elements_of}

abbrev pub max_revocations : ℕ
max_revocations = 256

abbrev pub max_revocation_bytes : ℕ
max_revocation_bytes = 65536

-- 30 days.
abbrev pub revocation_retention : ℕ
revocation_retention = 2592000000000000

pub record RevocationEntry : Type 0 where
  pub identity_hash : List ℕ
  pub revoked_at : List ℕ
  pub expires_at : List ℕ  -- empty when it is absent

pub record RevocationIndex : Type 0 where
  pub contract_id : String
  pub entries : List RevocationEntry

-- The file of the index: `unusable` when it is no private file of the user or does not decode.
pub data RevocationFile : Type 0 where
  absent unusable : RevocationFile
  stored : RevocationIndex → RevocationFile

-- The file of the active lease, up to its decoding.
pub data ActiveFile : Type 0 where
  missing : ActiveFile
  refused : Failure → ActiveFile
  present : ActiveLease → ActiveFile

-- What a `FileLease` stands on.
pub record LeaseFiles : Type 0 where
  pub path_valid : Bool
  pub active : ActiveFile
  pub revocations : RevocationFile

-- What the operating system answers one call of `Revoke`.
pub record System : Type 0 where
  pub locked : Bool
  pub index_written : Bool
  pub active_removed : Bool

int_decimal : ℤ → List ℕ
int_decimal (pos n) = decimal n
int_decimal (negsuc n) = b'-' ∷ decimal (suc n)

-- The texts of a list, each before or after a zero byte.
ended_texts : List (List ℕ) → List ℕ
ended_texts [] = []
ended_texts (text ∷ texts) = text ++ (0 ∷ ended_texts texts)

origin_texts : List String → List ℕ
origin_texts [] = []
origin_texts (origin ∷ origins) = 0 ∷ (codes origin ++ origin_texts origins)

-- What `browserIdentityHash` gives to the digest.
unfoldable pub identity_text : Identity → List ℕ
unfolding ended_texts origin_texts int_decimal
identity_text i =
    ended_texts (
      codes i.run_id
      ∷ codes i.agent_id
      ∷ codes i.principal_scope_id
      ∷ codes i.browser_session_id
      ∷ codes i.attachment_id
      ∷ codes i.browser_interaction_policy
      ∷ codes i.browser_mutation_origins_sha256
      ∷ [])
    ++ (decimal i.session_epoch
        ++ (0
            ∷ (decimal i.control_epoch
                ++ (0
                    ∷ (int_decimal i.browser_interaction_policy_generation
                        ++ origin_texts (elements_of i.browser_mutation_origins))))))

-- The loop over the entries of `isRevoked`.
unfoldable pub has_hash : List ℕ → List RevocationEntry → Bool
has_hash hash [] = false
has_hash hash (entry ∷ rest) = same_codes entry.identity_hash hash || has_hash hash rest

-- olderRevocation
abbrev pub older_revocation : RevocationEntry → RevocationEntry → Bool
older_revocation left right =
    if same_codes left.revoked_at right.revoked_at
    then less_codes left.identity_hash right.identity_hash
    else less_codes left.revoked_at right.revoked_at

-- The order of the sort: the latest first.
abbrev pub sorts_before : RevocationEntry → RevocationEntry → Bool
sorts_before left right =
    if same_codes left.revoked_at right.revoked_at
    then less_codes left.identity_hash right.identity_hash
    else less_codes right.revoked_at left.revoked_at

unfoldable pub insert_entry : RevocationEntry → List RevocationEntry → List RevocationEntry
insert_entry x [] = x ∷ []
insert_entry x (y ∷ ys) =
    let rest = insert_entry x ys in if sorts_before y x then y ∷ rest else x ∷ y ∷ ys

-- sort.Slice; entries with different hashes have one sorted arrangement.
unfoldable pub sort_entries : List RevocationEntry → List RevocationEntry
unfolding insert_entry
sort_entries [] = []
sort_entries (x ∷ xs) = insert_entry x (sort_entries xs)

-- The loop that looks for the oldest entry: its position, given the best so far.
unfoldable pub oldest_position : ℕ → ℕ → RevocationEntry → List RevocationEntry → ℕ
oldest_position position oldest best [] = oldest
oldest_position position oldest best (entry ∷ rest) =
    let found = older_revocation entry best in
    oldest_position (position + 1) (if found then position else oldest)
      (if found then entry else best) rest

unfoldable pub remove_at : ℕ → List RevocationEntry → List RevocationEntry
remove_at n [] = []
remove_at zero (entry ∷ rest) = rest
remove_at (suc n) (entry ∷ rest) = entry ∷ remove_at n rest

drop_oldest : List RevocationEntry → List RevocationEntry
unfolding oldest_position remove_at
drop_oldest [] = []
drop_oldest (entry ∷ rest) = remove_at (oldest_position 1 0 entry rest) (entry ∷ rest)

-- The room for one entry more.
unfoldable pub evict : List RevocationEntry → List RevocationEntry
unfolding drop_oldest
evict entries = if leb max_revocations (length entries) then drop_oldest entries else entries

-- The time library: the RFC 3339 form of a time, in UTC, and the time of a text.
pub record TimeForm : Type 0 where
  pub format : ℕ → List ℕ
  pub parse : List ℕ → Option ℕ

abbrev no_text : List ℕ → Bool
no_text [] = true
no_text _ = false

module _ (form : TimeForm) where
  -- The expiry of an entry, if it has one, is a time not before the revocation.
  expiry_fits : Option ℕ → Option ℕ → Bool
  expiry_fits (some revoked) (some expires) = not (ltb expires revoked)
  expiry_fits _ _ = false

  -- The tests on one entry; every error of them has the same effect.
  unfoldable pub entry_valid : RevocationEntry → Bool
  unfolding expiry_fits
  entry_valid entry =
      is_some (form.parse entry.revoked_at)
      && length entry.identity_hash == 64
      && is_some (hex_decode entry.identity_hash)
      && (no_text entry.expires_at
          || expiry_fits (form.parse entry.revoked_at) (form.parse entry.expires_at))

  abbrev within_retention : ℕ → Option ℕ → Bool
  within_retention now none = false
  within_retention now (some revoked) = not (ltb (revoked + revocation_retention) now)

  abbrev not_expired : ℕ → Option ℕ → Bool
  not_expired now none = false
  not_expired now (some expires) = ltb now expires

  -- Whether an entry is kept: until the lease expires, or for 30 days when its expiry is unknown.
  unfoldable pub retained : ℕ → RevocationEntry → Bool
  retained now entry =
      if no_text entry.expires_at
      then within_retention now (form.parse entry.revoked_at)
      else not_expired now (form.parse entry.expires_at)

  keep_entry :
      Bool → RevocationEntry → Option (List RevocationEntry) → Option (List RevocationEntry)
  keep_entry kept entry none = none
  keep_entry kept entry (some rest) = some (if kept then entry ∷ rest else rest)

  -- The loop of `readRevocations`.
  unfoldable pub read_entries :
      ℕ → List RevocationEntry → List RevocationEntry → Option (List RevocationEntry)
  unfolding keep_entry
  read_entries now seen [] = some []
  read_entries now seen (entry ∷ rest) =
      let later = read_entries now (entry ∷ seen) rest in
      if not (entry_valid entry) || has_hash entry.identity_hash seen
      then none
      else keep_entry (retained now entry) entry later

  unfoldable pub read_file : ℕ → RevocationFile → Option (List RevocationEntry)
  unfolding read_entries
  read_file now absent = some []
  read_file now unusable = none
  read_file now (stored index) =
      if not (index.contract_id =s= "openlinker.browser.revocations.v1")
        || ltb max_revocations (length index.entries)
      then none
      else read_entries now [] index.entries

  -- readRevocations
  unfoldable pub read_revocations : ℕ → LeaseFiles → Option (List RevocationEntry)
  unfolding read_file
  read_revocations now files = if files.path_valid then read_file now files.revocations else none

abbrev pub state_invalid : Failure
state_invalid =
    new_failure ErrorCode.runtime_unavailable "browser runtime revocation state is invalid" false

module _ (form : TimeForm) (sha256 : List ℕ → List ℕ)
    (validate_identity : Identity → Option Failure) (encoded_length : RevocationIndex → ℕ) where
  -- browserIdentityHash
  unfoldable pub browser_identity_hash : Identity → List ℕ
  browser_identity_hash i = hex_encode (sha256 (identity_text i))

  found_in : List ℕ → Option (List RevocationEntry) → Option Bool
  found_in hash none = none
  found_in hash (some entries) = some (has_hash hash entries)

  -- isRevoked
  unfoldable pub is_revoked : ℕ → Identity → LeaseFiles → Option Bool
  unfolding found_in
  is_revoked now i files = found_in (browser_identity_hash i) (read_revocations form now files)

  given_lease : ActiveLease → Option Failure → Result ActiveLease
  given_lease lease (some failure) = failed failure
  given_lease lease none = ok lease

  matched_lease : Identity → ActiveLease → Option Failure → Result ActiveLease
  unfolding given_lease
  matched_lease i lease (some failure) = failed failure
  matched_lease i lease none = given_lease lease (validate_static lease.identity i)

  -- activeAt
  unfoldable pub active_at : ℕ → Identity → ActiveFile → Result ActiveLease
  unfolding matched_lease
  active_at now i missing =
      failed
        (new_failure ErrorCode.runtime_unavailable "browser runtime has no active attachment" true)
  active_at now i (refused failure) = failed failure
  active_at now i (present lease) =
      matched_lease i lease (validate_lease validate_identity lease now)

  -- The entry that a revocation adds.
  abbrev pub revocation_of : ℕ → Identity → ActiveLease → RevocationEntry
  revocation_of now i lease = record {
    identity_hash = browser_identity_hash i;
    revoked_at = form.format now;
    expires_at = form.format lease.expires_at;
  }

  -- The index that a revocation writes.
  abbrev pub index_with : List RevocationEntry → RevocationEntry → RevocationIndex
  index_with entries entry = record {
    contract_id = "openlinker.browser.revocations.v1";
    entries = sort_entries (evict entries ++ (entry ∷ []));
  }

  remove_active : System → LeaseFiles → LeaseFiles × Option Failure
  remove_active system files =
      if system.active_removed then (record files { active = missing }, none) else (
        files,
        some (
            new_failure ErrorCode.runtime_unavailable "browser active lease could not be revoked"
              true),
      )

  -- writeRevocations and the removal of the active lease.
  unfoldable pub write_index : System → LeaseFiles → RevocationIndex → LeaseFiles × Option Failure
  unfolding remove_active
  write_index system files index =
      if not system.index_written || ltb max_revocation_bytes (encoded_length index)
      then (
        files,
        some (
            new_failure ErrorCode.runtime_unavailable
              "browser attachment closure could not be persisted" true),
      )
      else remove_active system (record files { revocations = stored index })

  unfoldable pub add_revocation :
      ℕ
      → Identity
      → System
      → LeaseFiles
      → ActiveLease
      → Option (List RevocationEntry)
      → LeaseFiles × Option Failure
  unfolding write_index
  add_revocation now i system files lease none = (files, some state_invalid)
  add_revocation now i system files lease (some entries) =
      write_index system files (index_with entries (revocation_of now i lease))

  with_active :
      ℕ → Identity → System → LeaseFiles → Result ActiveLease → LeaseFiles × Option Failure
  unfolding add_revocation
  with_active now i system files (failed failure) = (files, some failure)
  with_active now i system files (ok lease) =
      add_revocation now i system files lease (read_revocations form now files)

  -- The part under the lock of the lease authority.
  unfoldable pub revoke_locked :
      ℕ → Identity → System → LeaseFiles → Option Bool → LeaseFiles × Option Failure
  unfolding with_active
  revoke_locked now i system files none = (files, some state_invalid)
  revoke_locked now i system files (some true) = (files, none)
  revoke_locked now i system files (some false) =
      with_active now i system files (active_at now i files.active)

  revoke_checked : ℕ → Identity → System → LeaseFiles → Option Bool → LeaseFiles × Option Failure
  unfolding revoke_locked
  revoke_checked now i system files none = (files, some state_invalid)
  revoke_checked now i system files (some true) = (files, none)
  revoke_checked now i system files (some false) =
      if system.locked then revoke_locked now i system files (is_revoked now i files) else (
        files,
        some (
            new_failure ErrorCode.runtime_unavailable "browser lease authority lock is unavailable"
              true),
      )

  -- Revoke, at a time `now`
  unfoldable pub revoke : ℕ → Identity → System → LeaseFiles → LeaseFiles × Option Failure
  unfolding revoke_checked
  revoke now i system files = revoke_checked now i system files (is_revoked now i files)

  failure_of : Result ActiveLease → Option Failure
  failure_of (failed failure) = some failure
  failure_of (ok lease) = none

  validate_from : ℕ → Identity → LeaseFiles → Option Bool → Option Failure
  unfolding failure_of
  validate_from now i files none = some state_invalid
  validate_from now i files (some true) =
      some (new_failure ErrorCode.identity_mismatch "browser attachment has been closed" false)
  validate_from now i files (some false) = failure_of (active_at now i files.active)

  -- FileLease.Validate, at a time `now`
  unfoldable pub validate : ℕ → Identity → LeaseFiles → Option Failure
  unfolding validate_from
  validate now i files = validate_from now i files (is_revoked now i files)
