-- ===== src/Runtime/Lease.antt =====
-- `StaticLease` of packages/browser-runtime/browserruntime/lease.go: whether the identity of a
-- request is the one of the active lease.
use openlinker_plugin.Base.{
  ℕ, String, ◌≡◌, refl, ap, Bool, true, false, ◌||◌, ◌&&◌, not, Option, none, some, List, [], ◌∷◌,
  ◌==◌, ◌=s=◌, if◌then◌else◌, eq_int, length, arith, eq_iff, eq_refl, ==_iff, ◌↔◌, ℤ, pos, negsuc,
}
use openlinker_plugin.Protocol.Types.{
  Identity, Controller, agent, nobody, human, other, Failure, ErrorCode,
}
use openlinker_plugin.Protocol.Failure.{new_failure}

-- The loop of `sameStrings`, on lists of one length.
same_elements : List String → List String → Bool
same_elements [] [] = true
same_elements (x ∷ xs) (y ∷ ys) = x =s= y && same_elements xs ys
same_elements _ _ = false

-- The elements of a slice, nil or not.
abbrev pub elements_of : Option (List String) → List String
elements_of none = []
elements_of (some xs) = xs

-- sameStrings
unfoldable pub same_strings : Option (List String) → Option (List String) → Bool
unfolding same_elements
same_strings left right =
    if not (length (elements_of left) == length (elements_of right))
    then false
    else same_elements (elements_of left) (elements_of right)

abbrev pub same_controller : Controller → Controller → Bool
same_controller agent agent = true
same_controller nobody nobody = true
same_controller human human = true
same_controller (other a) (other b) = a =s= b
same_controller _ _ = false

-- The fields whose difference is an identity mismatch.
differs : Identity → Identity → Bool
differs i e =
    not (i.run_id =s= e.run_id)
    || not (i.agent_id =s= e.agent_id)
    || not (i.principal_scope_id =s= e.principal_scope_id)
    || not (i.browser_session_id =s= e.browser_session_id)
    || not (i.session_epoch == e.session_epoch)
    || not (i.attachment_id =s= e.attachment_id)
    || not (i.browser_interaction_policy =s= e.browser_interaction_policy)
    || not (eq_int i.browser_interaction_policy_generation e.browser_interaction_policy_generation)
    || not (i.browser_mutation_origins_sha256 =s= e.browser_mutation_origins_sha256)
    || not (same_strings i.browser_mutation_origins e.browser_mutation_origins)

-- StaticLease.Validate, for a lease of the identity `e`.
unfoldable pub validate_static : Identity → Identity → Option Failure
unfolding differs
validate_static e i =
    if differs i e
    then some (
        new_failure ErrorCode.identity_mismatch
          "browser attachment identity does not match the active lease" false)
    else if not (i.control_epoch == e.control_epoch)
    then some (new_failure ErrorCode.stale_control_epoch "browser control epoch is stale" false)
    else if not (same_controller i.controller e.controller)
    then some (
        new_failure ErrorCode.identity_mismatch "browser controller does not match the active lease"
          false)
    else none

same_elements-eq : (xs ys : List String) → same_elements xs ys ≡ true → xs ≡ ys
unfolding same_elements
same_elements-eq [] [] h = refl
same_elements-eq (x ∷ xs) (y ∷ ys) h = ground (arith, same_elements-eq xs ys, eq_iff x y)
same_elements-eq [] (y ∷ ys) h = cc
same_elements-eq (x ∷ xs) [] h = cc

same_elements_refl : (xs : List String) → same_elements xs xs ≡ true
unfolding same_elements
same_elements_refl [] = refl
same_elements_refl (x ∷ xs) = ground (arith, same_elements_refl xs, eq_refl x)

pub same_strings_iff :
    (a b : Option (List String)) → (same_strings a b ≡ true) ↔ (elements_of a ≡ elements_of b)
unfolding same_strings
same_strings_iff a b = (
  λ h. same_elements-eq (elements_of a) (elements_of b) (ground arith),
  λ e. rw e (ground (arith, same_elements_refl (elements_of b))),
)

eq_int-eq : (a b : ℤ) → eq_int a b ≡ true → a ≡ b
eq_int-eq (pos a) (pos b) h = ground arith
eq_int-eq (negsuc a) (negsuc b) h = ground arith
eq_int-eq (pos a) (negsuc b) h = ground arith
eq_int-eq (negsuc a) (pos b) h = ground arith

pub same_controller-eq : (a b : Controller) → same_controller a b ≡ true → a ≡ b
same_controller-eq agent agent h = refl
same_controller-eq nobody nobody h = refl
same_controller-eq human human h = refl
same_controller-eq (other a) (other b) h = ap other ((eq_iff a b).0 h)
same_controller-eq a b h = cc

same_controller_refl : (a : Controller) → same_controller a a ≡ true
same_controller_refl agent = refl
same_controller_refl nobody = refl
same_controller_refl human = refl
same_controller_refl (other a) = eq_refl a

-- The identities agree in every field; nil and empty origins are the same.
pub record SameIdentity (i e : Identity) : Type 0 where
  pub run : i.run_id ≡ e.run_id
  pub agent_same : i.agent_id ≡ e.agent_id
  pub principal : i.principal_scope_id ≡ e.principal_scope_id
  pub session : i.browser_session_id ≡ e.browser_session_id
  pub session_epoch : i.session_epoch ≡ e.session_epoch
  pub attachment : i.attachment_id ≡ e.attachment_id
  pub policy : i.browser_interaction_policy ≡ e.browser_interaction_policy
  pub generation : i.browser_interaction_policy_generation ≡ e.browser_interaction_policy_generation
  pub digest : i.browser_mutation_origins_sha256 ≡ e.browser_mutation_origins_sha256
  pub origins : elements_of i.browser_mutation_origins ≡ elements_of e.browser_mutation_origins
  pub control_epoch : i.control_epoch ≡ e.control_epoch
  pub controller : i.controller ≡ e.controller

static_tests :
    (e i : Identity)
    → validate_static e i ≡ none
    → (differs i e ≡ false)
      × (((i.control_epoch == e.control_epoch) ≡ true)
          × (same_controller i.controller e.controller ≡ true))
unfolding validate_static
static_tests e i h = ground arith

accepted-SameIdentity : (e i : Identity) → validate_static e i ≡ none → SameIdentity i e
unfolding differs
accepted-SameIdentity e i h =
    let (d, (c, k)) = static_tests e i h in
    record {
      run = ground (arith, eq_iff i.run_id e.run_id);
      agent_same = ground (arith, eq_iff i.agent_id e.agent_id);
      principal = ground (arith, eq_iff i.principal_scope_id e.principal_scope_id);
      session = ground (arith, eq_iff i.browser_session_id e.browser_session_id);
      session_epoch = ground arith;
      attachment = ground (arith, eq_iff i.attachment_id e.attachment_id);
      policy = ground (arith, eq_iff i.browser_interaction_policy e.browser_interaction_policy);
      generation =
          eq_int-eq i.browser_interaction_policy_generation e.browser_interaction_policy_generation
            (ground arith);
      digest =
          ground
            (arith, eq_iff i.browser_mutation_origins_sha256 e.browser_mutation_origins_sha256);
      origins =
          (same_strings_iff i.browser_mutation_origins e.browser_mutation_origins).0 (ground arith);
      control_epoch = (==_iff i.control_epoch e.control_epoch).0 c;
      controller = same_controller-eq i.controller e.controller k;
    }

text_same : (a b : String) → a ≡ b → (a =s= b) ≡ true
text_same a b h = rw h (eq_refl b)

number_same : (a b : ℕ) → a ≡ b → (a == b) ≡ true
number_same a b h = ground arith

int_same : (a b : ℤ) → a ≡ b → eq_int a b ≡ true
int_same a b h = rw h (ground arith)

controller_same : (a b : Controller) → a ≡ b → same_controller a b ≡ true
controller_same a b h = rw h (same_controller_refl b)

same-accepted : (e i : Identity) → SameIdentity i e → validate_static e i ≡ none
unfolding validate_static differs
same-accepted e i s = ground (
  arith,
  text_same i.run_id e.run_id s.run,
  text_same i.agent_id e.agent_id s.agent_same,
  text_same i.principal_scope_id e.principal_scope_id s.principal,
  text_same i.browser_session_id e.browser_session_id s.session,
  text_same i.attachment_id e.attachment_id s.attachment,
  text_same i.browser_interaction_policy e.browser_interaction_policy s.policy,
  text_same i.browser_mutation_origins_sha256 e.browser_mutation_origins_sha256 s.digest,
  number_same i.session_epoch e.session_epoch s.session_epoch,
  number_same i.control_epoch e.control_epoch s.control_epoch,
  int_same i.browser_interaction_policy_generation e.browser_interaction_policy_generation
      s.generation,
  (same_strings_iff i.browser_mutation_origins e.browser_mutation_origins).1 s.origins,
  controller_same i.controller e.controller s.controller,
)

-- The lease of an identity accepts exactly the identities that agree with it in every field, a nil
-- list of origins counting as an empty one.
pub validate_static-SameIdentity :
    (e i : Identity) → (validate_static e i ≡ none) ↔ SameIdentity i e
validate_static-SameIdentity e i = (accepted-SameIdentity e i, same-accepted e i)
