-- ===== src/Runtime/ProfileState/Files.antt =====
-- What the operating system and encoding/json tell of a state file. Both validations read a file
-- through the same calls: `os.Lstat`, `os.ReadFile` and a strict `json.Decoder`.
use openlinker_plugin.Base.{
  arith, ◌≡◌, ◌↔◌, refl, ℕ, String, Bool, ◌||◌, not, Option, none, some, List, ltb, ◌==◌,
}

-- `fs.FileInfo`: the type and permission bits, and the size.
pub record FileInfo : Type 0 where
  pub regular : Bool
  pub directory : Bool
  pub symlink : Bool
  pub shared : Bool  -- a permission bit of the group or of others is set
  pub size : ℕ

-- The result of `os.Lstat`.
pub data Look : Type 0 where
  missing unreadable : Look
  found : FileInfo → Look

-- The state file of one validation; the contents decode to values of `A`.
pub record StateFile {ℓ} (A : Type ℓ) : Type ℓ where
  pub file : Look
  pub directory : Look
  pub contents : Option (List ℕ)  -- os.ReadFile, `none` for an error
  pub decoded : Option A  -- the first value, `none` for an error or an unknown field
  pub trailing : Bool  -- anything but the end follows it

-- A returned `error`, by its text.
abbrev pub Verdict : Type 0
Verdict = Option String

infixr 20 ◌then◌
abbrev pub ◌then◌ : Verdict → Verdict → Verdict
none then b = b
some e then b = some e

abbrev pub is_private_file : FileInfo → ℕ → Bool
is_private_file info limit =
    not (not info.regular || info.symlink || info.shared || info.size == 0 || ltb limit info.size)

pub then_iff : (a b : Verdict) → ((a then b) ≡ none) ↔ ((a ≡ none) × (b ≡ none))
then_iff none b = (λ h. (refl, h), λ (h, k). k)
then_iff (some e) b = ground arith
