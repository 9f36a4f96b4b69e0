-- ===== src/Protocol/Origins.antt =====
-- packages/browser-runtime/browserprotocol/origins.go: the canonical list of mutation origins.
-- `canonical_mutation_origin` (which rests on net/url, net/netip and golang.org/x/net/idna) and the
-- digest (SHA-256 of the JSON encoding, in hex) are arguments of every definition that uses them.
use Prim.Native.Nat.{Ordering}
use Prim.Native.String.{compare}
use openlinker_plugin.Base.{
  ℕ, String, Bool, true, false, ◌||◌, ◌&&◌, not, Option, none, some, List, [], ◌∷◌, ◌++◌, ltb, ◌==◌,
  ◌=s=◌, if◌then◌else◌, has, length,
}
use openlinker_plugin.Protocol.Types.{Failure, ErrorCode}
use openlinker_plugin.Protocol.Failure.{new_failure, Result, ok, failed}

abbrev pub max_mutation_origins : ℕ
max_mutation_origins = 32

-- Go's `<=` on strings: the byte order, which for UTF-8 is the order of the code points.
abbrev pub text_le : String → String → Bool
text_le a b = elim (compare a b) [ Ordering.gt ↦ false | _ ↦ true ]

unfoldable pub insert_text : String → List String → List String
insert_text x [] = x ∷ []
insert_text x (y ∷ ys) = if text_le x y then x ∷ y ∷ ys else y ∷ insert_text x ys

-- sort.Strings: of a list of texts there is one sorted arrangement, so any sort gives it.
unfoldable pub sort_texts : List String → List String
unfolding insert_text
sort_texts [] = []
sort_texts (x ∷ xs) = insert_text x (sort_texts xs)

unfoldable pub same_texts : List String → List String → Bool
same_texts [] [] = true
same_texts (x ∷ xs) (y ∷ ys) = x =s= y && same_texts xs ys
same_texts _ _ = false

abbrev pub elements : Option (List String) → List String
elements none = []
elements (some xs) = xs

pub invalid_mutation_origins : Failure
invalid_mutation_origins =
    new_failure ErrorCode.protocol_invalid
      "Browser interaction policy or mutation origins are invalid" false

module _ (canonical_mutation_origin : String → Option String) where
  -- The loop over the origins, from those collected so far (whose set is the map `seen`).
  unfoldable pub collect_origins : List String → List String → Option (List String)
  collect_origins canonical [] = some canonical
  collect_origins canonical (raw ∷ rest) = elim (canonical_mutation_origin raw) [
    | none ↦ none
    | some origin ↦
        collect_origins (if has origin canonical then canonical else canonical ++ (origin ∷ []))
          rest
  ]

-- The policy's rule on an empty list.
unfoldable pub fits_policy : String → List String → Bool
fits_policy policy canonical =
    if policy =s= "restricted"
    then length canonical == 0
    else if policy =s= "full"
    then not (length canonical == 0)
    else false

module _ (canonical_mutation_origin : String → Option String) (digest : List String → String) where
  by_policy : String → Option (List String) → Result (List String × String)
  by_policy policy none = failed invalid_mutation_origins
  by_policy policy (some canonical) =
      let sorted = sort_texts canonical in
      if fits_policy policy sorted
      then ok (sorted, digest sorted)
      else failed invalid_mutation_origins

  -- CanonicalMutationOrigins
  unfoldable pub canonical_mutation_origins :
      String → Option (List String) → Result (List String × String)
  unfolding by_policy
  canonical_mutation_origins policy none = failed invalid_mutation_origins
  canonical_mutation_origins policy (some origins) =
      if ltb max_mutation_origins (length origins)
      then failed invalid_mutation_origins
      else by_policy policy (collect_origins canonical_mutation_origin [] origins)

  agrees : List String → String → Result (List String × String) → Option Failure
  agrees origins expected (failed failure) = some invalid_mutation_origins
  agrees origins expected (ok (canonical, found)) =
      if not (found =s= expected) || not (same_texts canonical origins)
      then some invalid_mutation_origins
      else none

  -- ValidateMutationOrigins. The test on the lengths and the loop are `same_texts`.
  unfoldable pub validate_mutation_origins : String → Option (List String) → String → Option Failure
  unfolding agrees
  validate_mutation_origins policy origins expected =
      agrees (elements origins) expected (canonical_mutation_origins policy origins)
