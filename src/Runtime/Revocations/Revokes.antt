-- ===== src/Runtime/Revocations/Revokes.antt =====
-- What a revocation does: the identity is revoked until its lease expires, the other revocations
-- stay, and the index stays readable and within its bound.
use openlinker_plugin.Base.{
  ℕ, ◌≤◌, ◌<◌, ◌≡◌, ◌≢◌, refl, sym, ap, ◌∙◌, Bool, true, false, Option, none, some, List, [], ◌∷◌,
  ◌++◌, arith, All, ltb, length, length-append, same_codes, same_codes_refl, hex_decode,
  hex_decode-hex_encode, length-hex_encode,
}
use openlinker_plugin.Protocol.Types.{Identity, Failure, ErrorCode}
use openlinker_plugin.Protocol.Failure.{ok}
use openlinker_plugin.Runtime.Lease.{validate_static}
use openlinker_plugin.Runtime.Revocations.{
  RevocationEntry, RevocationIndex, RevocationFile, absent, unusable, stored, missing, present,
  LeaseFiles, System, TimeForm, entry_valid, retained, read_revocations, has_hash, sort_entries,
  evict, max_revocations, is_revoked, found_in, revocation_of, index_with, active_at, revoke,
  browser_identity_hash, expiry_fits, no_text, identity_text,
}
use openlinker_plugin.Client.Lease.{ActiveLease}
use openlinker_plugin.Runtime.Revocations.Lists.{
  keep, has-evict, All-sort_entries, All-append, All-evict, All-keep, length-sort_entries, has-keep,
}
use openlinker_plugin.Runtime.Revocations.Distinct.{
  sort_entries-Distinct, add_last-Distinct, keep-Distinct, evict-Distinct, length-evict,
  has-keep_sorted, has-keep_last, has-keep_twice,
}
use openlinker_plugin.Runtime.Revocations.Reads.{Readable}
use openlinker_plugin.Protocol.Failure.{new_failure}
use openlinker_plugin.Runtime.Revocations.{validate, validate_from, failure_of}
use openlinker_plugin.Runtime.Revocations.Index.{
  Sound, entries_of, length-keep, Sound-read, read-Sound, retained_before, not_evicted, or_nothing,
}
use openlinker_plugin.Runtime.Revocations.Steps.{
  closed_files, some_given, revoke-Closing, active-ok, path_read, lacks_hash,
}

module _ (form : TimeForm) (sha256 : List ℕ → List ℕ)
    (validate_identity : Identity → Option Failure) (encoded_length : RevocationIndex → ℕ)
    (parse-format : (t : ℕ) → form.parse (form.format t) ≡ some t)
    (format-given : (t : ℕ) → form.format t ≢ [])
    (length-sha256 : (text : List ℕ) → length (sha256 text) ≡ 32)
    (sha256-bytes : (text : List ℕ) → All (λ b. b < 256) (sha256 text)) where
  abbrev hash_of : Identity → List ℕ
  hash_of = browser_identity_hash form sha256 validate_identity encoded_length

  abbrev entry_of : ℕ → Identity → ActiveLease → RevocationEntry
  entry_of = revocation_of form sha256 validate_identity encoded_length

  given_text : (text : List ℕ) → text ≢ [] → no_text text ≡ false
  given_text [] h = absurd (h refl)
  given_text (c ∷ cs) h = refl

  hash_length : (i : Identity) → length (hash_of i) ≡ 64
  unfolding browser_identity_hash
  hash_length i =
      omega (arith, length-hex_encode (sha256 (identity_text i)), length-sha256 (identity_text i))

  hash_decodes : (i : Identity) → hex_decode (hash_of i) ≡ some (sha256 (identity_text i))
  unfolding browser_identity_hash
  hash_decodes i = hex_decode-hex_encode (sha256 (identity_text i)) (sha256-bytes (identity_text i))

  entry_of-valid :
      (now : ℕ) (i : Identity) (lease : ActiveLease)
      → now < lease.expires_at
      → entry_valid form (entry_of now i lease) ≡ true
  unfolding entry_valid expiry_fits
  entry_of-valid now i lease h =
      rw
        (
          parse-format now,
          parse-format lease.expires_at,
          hash_length i,
          hash_decodes i,
          given_text (form.format lease.expires_at) (format-given lease.expires_at),
        )
        (ground arith)

  entry_of-retained :
      (t now : ℕ) (i : Identity) (lease : ActiveLease)
      → retained form t (entry_of now i lease) ≡ ltb t lease.expires_at
  unfolding retained
  entry_of-retained t now i lease =
      rw
        (
          given_text (form.format lease.expires_at) (format-given lease.expires_at),
          parse-format lease.expires_at,
        )
        refl

  -- The index that a revocation writes is sound.
  index-Sound :
      (es : List RevocationEntry) (e : RevocationEntry)
      → Readable form es
      → length es ≤ max_revocations
      → entry_valid form e ≡ true
      → has_hash e.identity_hash es ≡ false
      → Sound form (stored (index_with form sha256 validate_identity encoded_length es e))
  index-Sound es e (v, d) few fits new =
      let last = evict es ++ (e ∷ []) in
      (
        refl,
        (
          (
            All-sort_entries _ last
                (All-append _ (evict es) (e ∷ []) (All-evict _ es v) (fits, tt)),
            sort_entries-Distinct last (
                add_last-Distinct (evict es) e (evict-Distinct es d)
                  (has-evict e.identity_hash es new)),
          ),
          omega (
            arith,
            length-sort_entries last,
            length-append (evict es) (e ∷ []),
            length-evict es few,
          ),
        ),
      )

  -- What the reading of a sound file says of a hash.
  revoked_in :
      (t : ℕ) (i : Identity) (files : LeaseFiles)
      → files.path_valid ≡ true
      → Sound form files.revocations
      → is_revoked form sha256 validate_identity encoded_length t i files
        ≡ some (has_hash (hash_of i) (keep (retained form t) (entries_of files.revocations)))
  unfolding is_revoked read_revocations found_in
  revoked_in t i files p s = rw (p, Sound-read form t files.revocations s) refl

  -- The new entry is found until the lease expires.
  found_until :
      (t now : ℕ) (i : Identity) (lease : ActiveLease) (es : List RevocationEntry)
      → has_hash (hash_of i) es ≡ false
      → has_hash
          (hash_of i)
          (keep (retained form t) (sort_entries (evict es ++ (entry_of now i lease ∷ []))))
        ≡ ltb t lease.expires_at
  found_until t now i lease es new =
      has-keep_sorted (hash_of i) (retained form t) (evict es ++ (entry_of now i lease ∷ []))
      ∙ (has-keep_last (hash_of i) (retained form t) (evict es) (entry_of now i lease)
          ∙ rw
              (
                has-keep (hash_of i) (retained form t) (evict es) (has-evict (hash_of i) es new),
                same_codes_refl (hash_of i),
              )
              (entry_of-retained t now i lease))

  -- Another hash is found as before when nothing has to be evicted.
  found_before :
      (t now : ℕ) (hash : List ℕ) (e : RevocationEntry) (all : List RevocationEntry)
      → now ≤ t
      → length (keep (retained form now) all) < max_revocations
      → same_codes e.identity_hash hash ≡ false
      → has_hash hash
          (keep (retained form t) (sort_entries (evict (keep (retained form now) all) ++ (e ∷ []))))
        ≡ has_hash hash (keep (retained form t) all)
  found_before t now hash e all h few other =
      has-keep_sorted hash (retained form t) (evict (keep (retained form now) all) ++ (e ∷ []))
      ∙ (has-keep_last hash (retained form t) (evict (keep (retained form now) all)) e
          ∙ rw (not_evicted (keep (retained form now) all) few, other)
              (or_nothing _
                ∙ has-keep_twice hash (retained form t) (retained form now) all
                    (retained_before form now t h)))

  -- What a revocation leaves.
  pub record Closed (now : ℕ) (i : Identity) (files after : LeaseFiles) : Type 0 where
    pub lease : ActiveLease
    pub held : files.active ≡ present lease
    pub same : validate_static lease.identity i ≡ none
    pub before_expiry : now < lease.expires_at
    pub gone : after.active ≡ missing
    pub refused : (t : ℕ) → validate form sha256 validate_identity encoded_length t i after ≢ none
    pub sound : Sound form after.revocations
    pub until :
        (t : ℕ)
        → is_revoked form sha256 validate_identity encoded_length t i after
          ≡ some (ltb t lease.expires_at)
    pub others :
        (t : ℕ) (j : Identity)
        → now ≤ t
        → length (keep (retained form now) (entries_of files.revocations)) < max_revocations
        → same_codes (hash_of i) (hash_of j) ≡ false
        → is_revoked form sha256 validate_identity encoded_length t j after
          ≡ is_revoked form sha256 validate_identity encoded_length t j files

  Sound-Readable :
      (now : ℕ) (file : RevocationFile)
      → Sound form file
      → Readable form (keep (retained form now) (entries_of file))
        × (length (keep (retained form now) (entries_of file)) ≤ max_revocations)
  Sound-Readable now absent s = ((tt, tt), omega arith)
  Sound-Readable now unusable s = absurd s
  Sound-Readable now (stored index) (c, ((v, d), few)) = (
    (
      All-keep _ (retained form now) index.entries v,
      keep-Distinct (retained form now) index.entries d,
    ),
    omega (arith, few, length-keep (retained form now) index.entries),
  )

  refused_lease :
      (t : ℕ) (i : Identity) (files : LeaseFiles)
      → files.active ≡ missing
      → validate_from form sha256 validate_identity encoded_length t i files (some false)
        ≡ some (
            new_failure ErrorCode.runtime_unavailable "browser runtime has no active attachment"
              true)
  unfolding validate_from failure_of active_at
  refused_lease t i files gone = rw gone refl

  never_validated :
      (t : ℕ) (i : Identity) (files : LeaseFiles) (o : Option Bool)
      → files.active ≡ missing
      → validate_from form sha256 validate_identity encoded_length t i files o ≢ none
  unfolding validate_from failure_of active_at
  never_validated t i files none gone h = ground arith
  never_validated t i files (some true) gone h = ground arith
  never_validated t i files (some false) gone h =
      absurd (some_given _ (sym (refused_lease t i files gone) ∙ h))

  closed-refused :
      (t : ℕ) (i : Identity) (files : LeaseFiles)
      → files.active ≡ missing
      → validate form sha256 validate_identity encoded_length t i files ≢ none
  unfolding validate
  closed-refused t i files gone =
      never_validated t i files (is_revoked form sha256 validate_identity encoded_length t i files)
        gone

  closing-Closed :
      (now : ℕ) (i : Identity) (files : LeaseFiles) (lease : ActiveLease)
      → active_at form sha256 validate_identity encoded_length now i files.active ≡ ok lease
      → files.path_valid ≡ true
      → Sound form files.revocations
      → has_hash (hash_of i) (keep (retained form now) (entries_of files.revocations)) ≡ false
      → Closed now i files (
          closed_files form sha256 validate_identity encoded_length files (
            index_with form sha256 validate_identity encoded_length
              (keep (retained form now) (entries_of files.revocations))
              (entry_of now i lease)))
  closing-Closed now i files lease a p s new =
      let es = keep (retained form now) (entries_of files.revocations) in
      let after =
        closed_files form sha256 validate_identity encoded_length files
          (index_with form sha256 validate_identity encoded_length es (entry_of now i lease)) in
      let (held, (live, same)) =
        active-ok form sha256 validate_identity encoded_length now i files.active lease a in
      let (readable, few) = Sound-Readable now files.revocations s in
      let sound =
        index-Sound es (entry_of now i lease) readable few (entry_of-valid now i lease live) new in
      record {
        lease = lease;
        held = held;
        same = same;
        before_expiry = live;
        gone = refl;
        refused = λ t. closed-refused t i after refl;
        sound = sound;
        until = λ t. revoked_in t i after p sound ∙ ap some (found_until t now i lease es new);
        others = λ t j later room other.
            revoked_in t j after p sound
            ∙ (ap some (
                  found_before t now (hash_of j) (entry_of now i lease)
                    (entries_of files.revocations) later room other)
                ∙ sym (revoked_in t j files p s));
      }

  -- For a time form whose texts are not empty and read back to the time they were made of, and a
  -- digest of 32 bytes: when an identity that is not revoked is revoked at a time `now` and the
  -- revocation succeeds, then the active lease was that of the identity, with an expiry after `now`,
  -- and is removed, so that the lease validates the identity at no time; the index is one that every later reading accepts, with at most 256 entries;
  -- from then on the identity is found to be revoked at exactly the times before the expiry of that
  -- lease; and, when fewer than 256 revocations were in force, any identity with another hash is
  -- found revoked at each later time exactly as without this revocation.
  pub revoke-Closed :
      (now : ℕ) (i : Identity) (system : System) (files : LeaseFiles)
      → is_revoked form sha256 validate_identity encoded_length now i files ≡ some false
      → (revoke form sha256 validate_identity encoded_length now i system files).1 ≡ none
      → Closed now i files
          (revoke form sha256 validate_identity encoded_length now i system files).0
  revoke-Closed now i system files e h =
      let c = revoke-Closing form sha256 validate_identity encoded_length now i system files e h in
      let (p, r) =
        path_read form sha256 validate_identity encoded_length now files c.entries c.read in
      let (s, same) = read-Sound form now files.revocations c.entries r in
      rw (c.left, same)
        (closing-Closed now i files c.lease c.active p s (
          rw (sym same) (
            lacks_hash form sha256 validate_identity encoded_length now i files c.entries c.read
              e)))
