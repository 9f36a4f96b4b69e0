-- ===== src/Runtime/Revocations/Reads.antt =====
-- The reading of the index: it succeeds for valid entries with distinct hashes, and keeps those that
-- are retained.
use openlinker_plugin.Base.{
  ℕ, ◌≡◌, refl, sym, Bool, true, false, ◌||◌, not, Option, none, some, List, [], ◌∷◌, arith,
  if◌then◌else◌, some_eq, guarded_to, All,
}
use openlinker_plugin.Runtime.Revocations.{
  RevocationEntry, TimeForm, entry_valid, retained, keep_entry, read_entries, has_hash,
}
use openlinker_plugin.Runtime.Revocations.Lists.{keep, Distinct, same_codes_sym}

-- No hash of the second list is in the first.
abbrev pub Apart : List RevocationEntry → List RevocationEntry → Type 0
Apart seen es = All (λ e. has_hash e.identity_hash seen ≡ false) es

Apart-more :
    (x : RevocationEntry) (seen es : List RevocationEntry)
    → Apart seen es
    → has_hash x.identity_hash es ≡ false
    → Apart (x ∷ seen) es
unfolding has_hash
Apart-more x seen [] a h = tt
Apart-more x seen (e ∷ es) (a, as_rest) h = (
  ground (arith, same_codes_sym x.identity_hash e.identity_hash),
  Apart-more x seen es as_rest (ground arith),
)

Apart-less :
    (x : RevocationEntry) (seen es : List RevocationEntry)
    → Apart (x ∷ seen) es
    → Apart seen es × (has_hash x.identity_hash es ≡ false)
unfolding has_hash
Apart-less x seen [] a = (tt, refl)
Apart-less x seen (e ∷ es) (a, rest) =
    let below = Apart-less x seen es rest in
    (
      (ground arith, below.0),
      ground (arith, below.1, same_codes_sym x.identity_hash e.identity_hash),
    )

pub nothing-Apart : (es : List RevocationEntry) → Apart [] es
unfolding has_hash
nothing-Apart [] = tt
nothing-Apart (e ∷ es) = (refl, nothing-Apart es)

module _ (form : TimeForm) where
  -- The entries that a reading accepts.
  abbrev pub Readable : List RevocationEntry → Type 0
  Readable es = All (λ e. entry_valid form e ≡ true) es × Distinct es

  kept_some :
      (b : Bool) (e : RevocationEntry) (xs : List RevocationEntry)
      → keep_entry form b e (some xs) ≡ some (if b then e ∷ xs else xs)
  unfolding keep_entry
  kept_some b e xs = refl

  pub read-Readable :
      (now : ℕ) (seen es : List RevocationEntry)
      → Readable es
      → Apart seen es
      → read_entries form now seen es ≡ some (keep (retained form now) es)
  unfolding read_entries
  read-Readable now seen [] h a = refl
  read-Readable now seen (e ∷ es) ((v, vs), (n, d)) (a, rest) =
      rw (v, a, read-Readable now (e ∷ seen) es (vs, d) (Apart-more e seen es rest n))
        (kept_some (retained form now e) e (keep (retained form now) es))

  kept_cases :
      (b : Bool) (e : RevocationEntry) (o : Option (List RevocationEntry))
      (rs : List RevocationEntry)
      → keep_entry form b e o ≡ some rs
      → (xs : List RevocationEntry) × ((o ≡ some xs) × (rs ≡ (if b then e ∷ xs else xs)))
  unfolding keep_entry
  kept_cases b e none rs h = ground arith
  kept_cases b e (some xs) rs h = (xs, (refl, sym (some_eq _ rs h)))

  pub Readable-read :
      (now : ℕ) (seen es rs : List RevocationEntry)
      → read_entries form now seen es ≡ some rs
      → Readable es × (Apart seen es × (rs ≡ keep (retained form now) es))
  unfolding read_entries
  Readable-read now seen [] rs h = ((tt, tt), (tt, sym (some_eq [] rs h)))
  Readable-read now seen (e ∷ es) rs h =
      let (fine, kept) =
        guarded_to (not (entry_valid form e) || has_hash e.identity_hash seen) _ rs h in
      let (xs, (later, same)) = kept_cases (retained form now e) e _ rs kept in
      let ((vs, d), (a, k)) = Readable-read now (e ∷ seen) es xs later in
      let (below, new) = Apart-less e seen es a in
      ((((ground arith), vs), (new, d)), ((ground arith, below), rw (sym k) same))
