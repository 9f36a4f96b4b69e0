-- ===== src/Runtime/Revocations/Index.antt =====
-- The indexes that every reading accepts, and what they say at different times.
use openlinker_plugin.Base.{
  ℕ, ◌≤◌, ◌<◌, ◌≡◌, refl, sym, ◌∙◌, Bool, true, false, ◌||◌, not, Option, none, some, List, [], ◌∷◌,
  arith, if◌then◌else◌, ltb, leb, length, ◌=s=◌, eq_iff, some_eq, guarded_to, if_of_false,
}
use openlinker_plugin.Runtime.Revocations.{
  RevocationEntry, RevocationFile, absent, unusable, stored, TimeForm, retained, read_file, evict,
  max_revocations, no_text, within_retention, not_expired,
}
use openlinker_plugin.Runtime.Revocations.Lists.{keep}
use openlinker_plugin.Runtime.Revocations.Reads.{
  Readable, read-Readable, Readable-read, nothing-Apart,
}

pub length-keep :
    (p : RevocationEntry → Bool) (xs : List RevocationEntry) → length (keep p xs) ≤ length xs
length-keep p [] = omega arith
length-keep p (x ∷ xs) = ground (arith, length-keep p xs)

-- The index stored is one that every reading accepts.
abbrev pub Sound : TimeForm → RevocationFile → Type 0
Sound form absent = Unit
Sound form unusable = ⊥
Sound form (stored index) =
    (index.contract_id ≡ "openlinker.browser.revocations.v1")
    × (Readable form index.entries × (length index.entries ≤ max_revocations))

-- The entries of a file.
abbrev pub entries_of : RevocationFile → List RevocationEntry
entries_of absent = []
entries_of unusable = []
entries_of (stored index) = index.entries

few_false : (n : ℕ) → n ≤ max_revocations → ltb max_revocations n ≡ false
few_false n h = ground arith

module _ (form : TimeForm) where
  pub Sound-read :
      (now : ℕ) (file : RevocationFile)
      → Sound form file
      → read_file form now file ≡ some (keep (retained form now) (entries_of file))
  unfolding read_file
  Sound-read now absent h = refl
  Sound-read now unusable h = absurd h
  Sound-read now (stored index) (c, (r, few)) =
      if_of_false
        (not (index.contract_id =s= "openlinker.browser.revocations.v1")
          || ltb max_revocations (length index.entries))
        _ _
        (ground (arith, (eq_iff index.contract_id "openlinker.browser.revocations.v1").1 c, few))
      ∙ read-Readable form now [] index.entries r (nothing-Apart index.entries)

  pub read-Sound :
      (now : ℕ) (file : RevocationFile) (es : List RevocationEntry)
      → read_file form now file ≡ some es
      → Sound form file × (es ≡ keep (retained form now) (entries_of file))
  unfolding read_file
  read-Sound now absent es h = (tt, sym (some_eq [] es h))
  read-Sound now unusable es h = ground arith
  read-Sound now (stored index) es h =
      let (fine, read) =
        guarded_to
          (not (index.contract_id =s= "openlinker.browser.revocations.v1")
            || ltb max_revocations (length index.entries))
          _ es h in
      let (readable, (_, same)) = Readable-read form now [] index.entries es read in
      (
        (
          (eq_iff index.contract_id "openlinker.browser.revocations.v1").0 (ground arith),
          (readable, ground arith),
        ),
        same,
      )

  retained_cases :
      (now t : ℕ)
      → now ≤ t
      → (b : Bool) (r e : Option ℕ)
      → (if b then within_retention form t r else not_expired form t e) ≡ true
      → (if b then within_retention form now r else not_expired form now e) ≡ true
  retained_cases now t h true none e k = k
  retained_cases now t h true (some r) e k = ground arith
  retained_cases now t h false r none k = k
  retained_cases now t h false r (some e) k = ground arith

  -- What is kept later is kept earlier.
  pub retained_before :
      (now t : ℕ)
      → now ≤ t
      → (e : RevocationEntry) → retained form t e ≡ true
      → retained form now e ≡ true
  unfolding retained
  retained_before now t h e k =
      retained_cases now t h (no_text e.expires_at) (form.parse e.revoked_at)
        (form.parse e.expires_at) k

pub not_evicted : (es : List RevocationEntry) → length es < max_revocations → evict es ≡ es
unfolding evict
not_evicted es h = if_of_false (leb max_revocations (length es)) _ _ (ground arith)

pub or_nothing : (b : Bool) → (b || false) ≡ b
or_nothing true = refl
or_nothing false = refl
