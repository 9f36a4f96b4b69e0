-- ===== src/Adapters/RunLease/Epochs.antt =====
-- The control epoch of a lease of a Browser run as a fence between controllers.
use openlinker_plugin.Base.{
  ℕ, suc, ◌+◌, ◌^◌, ◌<◌, ◌≤◌, ◌≡◌, refl, ap, ◌∙◌, ◌⊎◌, inl, inr, String, Bool, true, false, ◌&&◌,
  not, Option, none, some, List, [], ◌∷◌, ◌==◌, if◌then◌else◌, length, arith,
}
use openlinker_plugin.Protocol.Types.{Identity, Controller}
use openlinker_plugin.Runtime.Lease.{same_controller}
use openlinker_plugin.Adapters.RunLease.{
  RunLease, Disk, next_epoch, persist, with_control, kept_or_back, transition_controller, rotated,
  rotate_open, rotate, close_files, close,
}

-- The operations that change a lease; Pause is a change of the controller.
pub data LeaseEvent : Type 0 where
  rotating : Disk → Option String → LeaseEvent
  changing : Disk → Controller → Controller → ℕ → LeaseEvent
  closing : Disk → LeaseEvent

unfoldable pub apply_event : LeaseEvent → RunLease → RunLease
apply_event (rotating d fresh) lease = (rotate d fresh lease).0
apply_event (changing d expected next target) lease =
    (transition_controller d expected next target lease).0
apply_event (closing d) lease = (close d lease).0

unfoldable pub apply_events : List LeaseEvent → RunLease → RunLease
unfolding apply_event
apply_events [] lease = lease
apply_events (e ∷ es) lease = apply_events es (apply_event e lease)

-- What the state file will say of the control is what the identity says.
abbrev pub Agrees : RunLease → Type 0
Agrees lease =
    (lease.state.session_epoch ≡ lease.identity.session_epoch)
    × ((lease.state.control_epoch ≡ lease.identity.control_epoch)
        × (lease.state.controller ≡ lease.identity.controller))

-- One step: the identity stays, or the control epoch is the next one.
abbrev Moved : RunLease → RunLease → Type 0
Moved s t =
    Agrees t
    × ((t.identity ≡ s.identity) ⊎ (t.identity.control_epoch ≡ next_epoch s.identity.control_epoch))

pick-Moved :
    (s : RunLease) (b : Bool) (x y : RunLease × Option String)
    → Moved s x.0
    → Moved s y.0
    → Moved s (if b then x else y).0
pick-Moved s true x y h k = h
pick-Moved s false x y h k = k

persist-Moved : (d : Disk) (s t : RunLease) → Moved s t → Moved s (persist d t).0
unfolding persist
persist-Moved d s t h = pick-Moved s (not d.locked) _ _ h h

given_back-Moved :
    (s : RunLease) (p : RunLease × Option String)
    → Agrees s
    → Moved s p.0
    → Moved s (kept_or_back s p).0
unfolding kept_or_back
given_back-Moved s (t, none) a h = h
given_back-Moved s (t, some e) a h = (a, inl refl)

changed-Moved :
    (d : Disk) (expected next : Controller) (target : ℕ) (s : RunLease)
    → Agrees s
    → Moved s (transition_controller d expected next target s).0
unfolding transition_controller with_control
changed-Moved d expected next target s a =
    pick-Moved s s.closed _ _ (a, inl refl)
      (pick-Moved s (not (same_controller s.identity.controller expected)) _ _ (a, inl refl)
        (pick-Moved s (not (target == 0) && not (target == next_epoch s.identity.control_epoch)) _ _
          (a, inl refl)
          (given_back-Moved s
            (persist d (with_control d s (next_epoch s.identity.control_epoch) next)) a
            (persist-Moved d s (with_control d s (next_epoch s.identity.control_epoch) next)
              ((a.0, (refl, refl)), inr refl)))))

opened-Moved :
    (d : Disk) (fresh : Option String) (s : RunLease) → Agrees s → Moved s (rotate_open d fresh s).0
unfolding rotate_open rotated
opened-Moved d none s a = (a, inl refl)
opened-Moved d (some id) s a =
    persist-Moved d s (rotated d id s) ((refl, (refl, refl)), inr (ap next_epoch a.1.0))

rotated-Moved :
    (d : Disk) (fresh : Option String) (s : RunLease) → Agrees s → Moved s (rotate d fresh s).0
unfolding rotate
rotated-Moved d fresh s a = pick-Moved s s.closed _ _ (a, inl refl) (opened-Moved d fresh s a)

closed-Moved : (d : Disk) (s : RunLease) → Agrees s → Moved s (close d s).0
unfolding close close_files
closed-Moved d s a =
    pick-Moved s s.closed _ _ (a, inl refl)
      (pick-Moved s (not d.locked) _ _ (a, inl refl)
        (pick-Moved s _ _ _ (a, inl refl) (a, inl refl)))

event-Moved : (e : LeaseEvent) (s : RunLease) → Agrees s → Moved s (apply_event e s)
unfolding apply_event
event-Moved (rotating d fresh) s a = rotated-Moved d fresh s a
event-Moved (changing d expected next target) s a = changed-Moved d expected next target s a
event-Moved (closing d) s a = closed-Moved d s a

next_in_range : (epoch : ℕ) → epoch + 1 < 2 ^ 64 → next_epoch epoch ≡ epoch + 1
next_in_range epoch h = omega (arith, h)

-- The identity is the same or the epoch is larger, by at most `n`.
pub Fenced : ℕ → RunLease → RunLease → Type 0
Fenced n s t =
    ((t.identity ≡ s.identity) ⊎ (s.identity.control_epoch < t.identity.control_epoch))
    × (t.identity.control_epoch ≤ s.identity.control_epoch + n)

one_step-Fenced :
    (s t : RunLease) → s.identity.control_epoch + 1 < 2 ^ 64 → Moved s t → Fenced 1 s t
unfolding Fenced
one_step-Fenced s t h (a, inl e) =
    let same = ap Identity.control_epoch e in (inl e, omega (arith, same))
one_step-Fenced s t h (a, inr e) =
    let next = next_in_range s.identity.control_epoch h in
    (inr (omega (arith, e, next)), omega (arith, e, next))

Fenced-trans : (n : ℕ) (s t u : RunLease) → Fenced 1 s t → Fenced n t u → Fenced (suc n) s u
unfolding Fenced
Fenced-trans n s t u (inl e, b) (inl f, c) = (inl (f ∙ e), omega (arith, b, c))
Fenced-trans n s t u (inl e, b) (inr f, c) =
    let same = ap Identity.control_epoch e in (inr (omega (arith, f, same)), omega (arith, b, c))
Fenced-trans n s t u (inr e, b) (inl f, c) =
    let same = ap Identity.control_epoch f in (inr (omega (arith, e, same)), omega (arith, b, c))
Fenced-trans n s t u (inr e, b) (inr f, c) = (inr (omega (arith, e, f)), omega (arith, b, c))

rest_fits :
    (n : ℕ) (s t : RunLease)
    → Fenced 1 s t
    → s.identity.control_epoch + suc n < 2 ^ 64
    → t.identity.control_epoch + n < 2 ^ 64
unfolding Fenced
rest_fits n s t (_, b) h = omega (arith, b, h)

-- When the state and the identity of a lease agree on the control, they agree after any sequence of
-- rotations, changes of the controller and closings, whatever of them fails; and unless the
-- sequence is long enough for the 64-bit control epoch to wrap around, the identity after it is the
-- one before, or the control epoch is larger: two identities of a lease with one control epoch are
-- the same, its controller included.
pub apply_events-Fenced :
    (es : List LeaseEvent) (s : RunLease)
    → Agrees s
    → s.identity.control_epoch + length es < 2 ^ 64
    → Agrees (apply_events es s) × Fenced (length es) s (apply_events es s)
unfolding apply_events Fenced
apply_events-Fenced [] s a h = (a, (inl refl, omega arith))
apply_events-Fenced (e ∷ es) s a h =
    let m = event-Moved e s a in
    let f = one_step-Fenced s (apply_event e s) (omega (arith, h)) m in
    let (later, g) =
      apply_events-Fenced es (apply_event e s) m.0
        (rest_fits (length es) s (apply_event e s) f h) in
    (later, Fenced-trans (length es) s (apply_event e s) (apply_events es (apply_event e s)) f g)
