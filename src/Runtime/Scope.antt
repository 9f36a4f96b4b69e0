-- ===== src/Runtime/Scope.antt =====
-- `attachmentRequestScope` of browserruntime/connection.go and the click-navigation scope: texts
-- that name an attachment, kept as their runes. `fmt.Sprintf("%d")` is `decimal`.
pub mod Injective
use openlinker_plugin.Base.{
  ℕ, zero, suc, ◌+◌, ◌*◌, ◌/◌, ◌%◌, ◌<◌, ◌≤◌, String, ◌≡◌, refl, Bool, true, false, List, [], ◌∷◌,
  ◌++◌, arith, ltb, if◌then◌else◌, codes,
}
use openlinker_plugin.Protocol.Types.{Identity}

-- The digits of a number, most significant first, with fuel above the number.
decimal_fuel : ℕ → ℕ → List ℕ
decimal_fuel zero n = []
decimal_fuel (suc f) n =
    let front = decimal_fuel f (n / 10) in
    if ltb n 10 then (b'0' + n) ∷ [] else front ++ (b'0' + n % 10) ∷ []

unfoldable pub decimal : ℕ → List ℕ
unfolding decimal_fuel
decimal n = decimal_fuel (suc n) n

abbrev pub bar : ℕ
bar = b'|'

unfoldable pub attachment_request_scope : Identity → List ℕ
attachment_request_scope identity =
    codes identity.run_id
    ++ (bar
        ∷ (codes identity.attachment_id
            ++ (bar ∷ (decimal identity.session_epoch ++ (bar ∷ decimal identity.control_epoch)))))

unfoldable pub click_navigation_scope : Identity → List ℕ
click_navigation_scope identity =
    codes identity.browser_session_id ++ (bar ∷ decimal identity.session_epoch)
