-- ===== src/Runtime/ProfileState/Pages/Accepts.antt =====
-- The page continuations that the validation accepts, described without its loop.
use openlinker_plugin.Base.{
  ℕ, ◌≤◌, String, ◌≡◌, ◌↔◌, refl, Bool, true, false, ◌||◌, none, some, List, arith, length, codes,
  hex_decode, All, map, if◌then◌else◌,
}
use openlinker_plugin.Runtime.ProfileState.Files.{◌then◌}
use openlinker_plugin.Runtime.ProfileState.Keys.{DistinctKeys}
use openlinker_plugin.Runtime.ProfileState.Pages.{
  Library, PageEntry, PageIndex, PageUrl, max_page_continuation_url, max_page_continuation_entries,
  refused_scheme, refused_host, lower, normal_text,
}

module _ (library : Library) where
  -- The text parses to a URL with an accepted scheme and host and no user, and is its normal text.
  abbrev pub IsPageUrl : List ℕ → Type 0
  IsPageUrl raw =
      (url : PageUrl) × ((library.parse raw ≡ some url)
        × ((refused_scheme library url.scheme
                || url.has_user
                || refused_host library (lower library url.hostname)
              ≡ false)
            × ((normal_text library url ≡ raw)
                × ((1 ≤ length raw) × (length raw ≤ max_page_continuation_url)))))

  pub record ValidPage (entry : PageEntry) : Type 0 where
    pub key :
        (bytes : List ℕ) × ((hex_decode (codes entry.session_key) ≡ some bytes)
          × (length bytes ≡ 32))
    pub url : IsPageUrl entry.url
    pub updated : library.is_utc_time entry.updated_at ≡ true

  pub record ValidIndex (index : PageIndex) : Type 0 where
    pub contract : index.contract_id ≡ "openlinker.browser.page-continuation.v1"
    pub few : length index.entries ≤ max_page_continuation_entries
    pub pages : All ValidPage index.entries
    pub distinct : DistinctKeys (map PageEntry.session_key index.entries)

  time_iff :
      (b : Bool) (message : String) → ((if b then none else some message) ≡ none) ↔ (b ≡ true)
  time_iff true message = (λ h. refl, λ h. refl)
  time_iff false message = ground arith
