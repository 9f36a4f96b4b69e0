-- ===== src/Runtime/Revocations/Steps.antt =====
-- The steps of a revocation that succeeds.
use openlinker_plugin.Base.{
  ℕ, ◌<◌, ◌≡◌, ◌≢◌, refl, sym, ap, ◌∙◌, Bool, true, false, ◌||◌, not, Option, none, some, List,
  arith, if◌then◌else◌, ltb, some_eq,
}
use openlinker_plugin.Protocol.Types.{Identity, Failure}
use openlinker_plugin.Protocol.Failure.{Result, ok, failed}
use openlinker_plugin.Runtime.Lease.{validate_static}
use openlinker_plugin.Runtime.Revocations.{
  RevocationEntry, RevocationIndex, stored, ActiveFile, missing, refused, present, LeaseFiles,
  System, TimeForm, read_file, read_revocations, has_hash, is_revoked, found_in, revocation_of,
  index_with, active_at, matched_lease, given_lease, write_index, remove_active, add_revocation,
  with_active, revoke_locked, revoke_checked, revoke, browser_identity_hash, max_revocation_bytes,
  state_invalid,
}
use openlinker_plugin.Client.Lease.{ActiveLease, validate_lease, check_expiry}

-- The call that was not refused.
picked :
    (b : Bool) (x y : LeaseFiles × Option Failure)
    → x.1 ≢ none
    → (if b then x else y).1 ≡ none
    → (if b then x else y) ≡ y
picked true x y h k = absurd (h k)
picked false x y h k = refl

kept :
    (b : Bool) (x y : LeaseFiles × Option Failure)
    → y.1 ≢ none
    → (if b then x else y).1 ≡ none
    → (if b then x else y) ≡ x
kept true x y h k = refl
kept false x y h k = absurd (h k)

ok_eq : (x y : ActiveLease) → Result.ok x ≡ ok y → x ≡ y
ok_eq x y h = cc

given_path :
    (b : Bool) (o : Option (List RevocationEntry)) (es : List RevocationEntry)
    → (if b then o else none) ≡ some es
    → (b ≡ true) × (o ≡ some es)
given_path true o es h = (refl, h)
given_path false o es h = ground arith

pub some_given : (f : Failure) → some f ≢ none
some_given f h = ground arith

module _ (form : TimeForm) (sha256 : List ℕ → List ℕ)
    (validate_identity : Identity → Option Failure) (encoded_length : RevocationIndex → ℕ) where
  abbrev hash_of : Identity → List ℕ
  hash_of = browser_identity_hash form sha256 validate_identity encoded_length

  abbrev entry_of : ℕ → Identity → ActiveLease → RevocationEntry
  entry_of = revocation_of form sha256 validate_identity encoded_length

  abbrev pub closed_files : LeaseFiles → RevocationIndex → LeaseFiles
  closed_files files index = record files { revocations = stored index; active = missing }

  removed :
      (system : System) (files : LeaseFiles)
      → (remove_active form sha256 validate_identity encoded_length system files).1 ≡ none
      → (remove_active form sha256 validate_identity encoded_length system files).0
        ≡ record files { active = missing }
  unfolding remove_active
  removed system files h = ap (λ o. o.0) (kept system.active_removed _ _ (some_given _) h)

  written :
      (system : System) (files : LeaseFiles) (index : RevocationIndex)
      → (write_index form sha256 validate_identity encoded_length system files index).1 ≡ none
      → (write_index form sha256 validate_identity encoded_length system files index).0
        ≡ closed_files files index
  unfolding write_index
  written system files index h =
      let same =
        picked (not system.index_written || ltb max_revocation_bytes (encoded_length index)) _ _
          (some_given _) h in
      ap (λ o. o.0) same
      ∙ removed system (record files { revocations = stored index }) (sym (ap (λ o. o.1) same) ∙ h)

  -- The lease that a revocation closes.
  pub record Closing (now : ℕ) (i : Identity) (files after : LeaseFiles) : Type 0 where
    pub lease : ActiveLease
    pub entries : List RevocationEntry
    pub active :
        active_at form sha256 validate_identity encoded_length now i files.active ≡ ok lease
    pub read : read_revocations form now files ≡ some entries
    pub left :
        after
        ≡ closed_files files
            (index_with form sha256 validate_identity encoded_length entries (entry_of now i lease))

  added :
      (now : ℕ) (i : Identity) (system : System) (files : LeaseFiles) (lease : ActiveLease)
      (o : Option (List RevocationEntry))
      → active_at form sha256 validate_identity encoded_length now i files.active ≡ ok lease
      → read_revocations form now files ≡ o
      → (add_revocation form sha256 validate_identity encoded_length now i system files lease o).1
        ≡ none
      → Closing now i files
          (add_revocation form sha256 validate_identity encoded_length now i system files lease o).0
  unfolding add_revocation
  added now i system files lease none a r h = absurd (some_given state_invalid h)
  added now i system files lease (some es) a r h = record {
    lease = lease;
    entries = es;
    active = a;
    read = r;
    left = written system files _ h;
  }

  with_active-Closing :
      (now : ℕ) (i : Identity) (system : System) (files : LeaseFiles) (o : Result ActiveLease)
      → active_at form sha256 validate_identity encoded_length now i files.active ≡ o
      → (with_active form sha256 validate_identity encoded_length now i system files o).1 ≡ none
      → Closing now i files
          (with_active form sha256 validate_identity encoded_length now i system files o).0
  unfolding with_active
  with_active-Closing now i system files (failed f) a h = absurd (some_given f h)
  with_active-Closing now i system files (ok lease) a h =
      added now i system files lease (read_revocations form now files) a refl h

  not_revoked_before :
      (now : ℕ) (i : Identity) (system : System) (files : LeaseFiles)
      → is_revoked form sha256 validate_identity encoded_length now i files ≡ some false
      → (revoke form sha256 validate_identity encoded_length now i system files).1 ≡ none
      → revoke form sha256 validate_identity encoded_length now i system files
        ≡ with_active form sha256 validate_identity encoded_length now i system files
            (active_at form sha256 validate_identity encoded_length now i files.active)
  unfolding revoke revoke_checked revoke_locked
  not_revoked_before now i system files e h =
      let checked =
        ap (revoke_checked form sha256 validate_identity encoded_length now i system files) e in
      checked
      ∙ (kept system.locked _ _ (some_given _) (sym (ap (λ o. o.1) checked) ∙ h)
          ∙ ap (revoke_locked form sha256 validate_identity encoded_length now i system files) e)

  pub revoke-Closing :
      (now : ℕ) (i : Identity) (system : System) (files : LeaseFiles)
      → is_revoked form sha256 validate_identity encoded_length now i files ≡ some false
      → (revoke form sha256 validate_identity encoded_length now i system files).1 ≡ none
      → Closing now i files
          (revoke form sha256 validate_identity encoded_length now i system files).0
  revoke-Closing now i system files e h =
      let same = not_revoked_before now i system files e h in
      rw same (with_active-Closing now i system files _ refl (sym (ap (λ o. o.1) same) ∙ h))

  given-ok :
      (lease found : ActiveLease) (o : Option Failure)
      → given_lease form sha256 validate_identity encoded_length lease o ≡ ok found
      → (o ≡ none) × (lease ≡ found)
  unfolding given_lease
  given-ok lease found (some f) h = ground arith
  given-ok lease found none h = (refl, ok_eq lease found h)

  expiry-fits :
      (expires now : ℕ) (o : Option Failure)
      → check_expiry validate_identity expires now o ≡ none
      → now < expires
  unfolding check_expiry
  expiry-fits expires now (some f) h = ground arith
  expiry-fits expires now none h = ground arith

  lease-fits :
      (lease : ActiveLease) (now : ℕ)
      → validate_lease validate_identity lease now ≡ none
      → now < lease.expires_at
  unfolding validate_lease
  lease-fits lease now h =
      expiry-fits lease.expires_at now (validate_identity lease.identity) (ground arith)

  matched-ok :
      (i : Identity) (lease found : ActiveLease) (now : ℕ) (o : Option Failure)
      → validate_lease validate_identity lease now ≡ o
      → matched_lease form sha256 validate_identity encoded_length i lease o ≡ ok found
      → (now < lease.expires_at) × ((validate_static lease.identity i ≡ none) × (lease ≡ found))
  unfolding matched_lease
  matched-ok i lease found now (some f) v h = ground arith
  matched-ok i lease found now none v h =
      (lease-fits lease now v, given-ok lease found (validate_static lease.identity i) h)

  pub active-ok :
      (now : ℕ) (i : Identity) (file : ActiveFile) (found : ActiveLease)
      → active_at form sha256 validate_identity encoded_length now i file ≡ ok found
      → (file ≡ present found)
        × ((now < found.expires_at) × (validate_static found.identity i ≡ none))
  unfolding active_at
  active-ok now i missing found h = ground arith
  active-ok now i (refused f) found h = ground arith
  active-ok now i (present lease) found h =
      let (live, (same, e)) = matched-ok i lease found now _ refl h in
      (ap present e, rw (sym e) (live, same))

  pub path_read :
      (now : ℕ) (files : LeaseFiles) (es : List RevocationEntry)
      → read_revocations form now files ≡ some es
      → (files.path_valid ≡ true) × (read_file form now files.revocations ≡ some es)
  unfolding read_revocations
  path_read now files es h = given_path files.path_valid (read_file form now files.revocations) es h

  pub lacks_hash :
      (now : ℕ) (i : Identity) (files : LeaseFiles) (es : List RevocationEntry)
      → read_revocations form now files ≡ some es
      → is_revoked form sha256 validate_identity encoded_length now i files ≡ some false
      → has_hash (hash_of i) es ≡ false
  unfolding is_revoked found_in
  lacks_hash now i files es r h =
      some_eq _ false
        (sym (ap (found_in form sha256 validate_identity encoded_length (hash_of i)) r) ∙ h)
