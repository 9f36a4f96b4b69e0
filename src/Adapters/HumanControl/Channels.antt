-- ===== src/Adapters/HumanControl/Channels.antt =====
-- The channels on which the goroutines of a paused Browser run wait.
use openlinker_plugin.Base.{
  ℕ, ◌+◌, ◌<◌, ◌≤◌, ◌≡◌, refl, sym, ◌∙◌, ◌⊎◌, inl, inr, String, Bool, true, false, ◌&&◌, Option,
  none, some, List, ◌∷◌, ◌==◌, if◌then◌else◌, arith, Bool-cases, ==_iff,
}
use openlinker_plugin.Protocol.Types.{Failure}
use openlinker_plugin.Adapters.RunLease.{RunLease, Disk, pause, close, transition_controller}
use openlinker_plugin.Adapters.HumanControl.{
  Control, Answers, new_control, has_channel, close_channel, mark_paused, pause_failed,
  mark_resumed, mark_terminated, wait_resumed, pause_lease, paused_lease, terminate_control,
  terminal_failure, is_none, close_browser_runtime,
}

-- A part under the mutex of the pausing goroutines or of the commands. A pause that fails has the
-- channel of its own first part.
pub data Section : Control → Control → Type 0 where
  marking : (s : Control) → Section s (mark_paused s).0
  failing : (c : ℕ) (s : Control) → 1 ≤ c → c < s.made → Section s (pause_failed c s)
  resuming : (s : Control) → Section s (mark_resumed s)
  terminating : (failure : Failure) (s : Control) → Section s (mark_terminated failure s)

pub data Sections (s : Control) : Control → Type 0 where
  started : Sections s s
  followed : (t u : Control) → Sections s t → Section t u → Sections s u

-- Every channel but the one of the current pause is closed, and that one is open.
record Waking (s : Control) : Type 0 where
  below : (c : ℕ) → has_channel c s.closed_channels ≡ true → c < s.made
  first : 1 ≤ s.made
  current : (s.paused ≡ true) → (1 ≤ s.resumed) × (s.resumed < s.made)
  is_open : (s.paused ≡ true) → has_channel s.resumed s.closed_channels ≡ false
  ended :
      (c : ℕ)
      → 1 ≤ c
      → c < s.made
      → (has_channel c s.closed_channels ≡ true) ⊎ ((c ≡ s.resumed) × (s.paused ≡ true))

-- Nothing is claimed once a channel was closed twice.
abbrev Holds : Control → Type 0
Holds s = (s.panicked ≡ true) ⊎ Waking s

added :
    (c x : ℕ) (xs : List ℕ) → has_channel c (x ∷ xs) ≡ true → (c ≡ x) ⊎ (has_channel c xs ≡ true)
unfolding has_channel
added c x xs h = ground (arith, ==_iff c x)

kept : (c x : ℕ) (xs : List ℕ) → has_channel c xs ≡ true → has_channel c (x ∷ xs) ≡ true
unfolding has_channel
kept c x xs h = ground arith

newest : (c : ℕ) (xs : List ℕ) → has_channel c (c ∷ xs) ≡ true
unfolding has_channel
newest c xs = ground (arith, (==_iff c c).1 refl)

-- The state in which the current pause has just been ended.
abbrev unpaused : Option Failure → Control → Control
unpaused t s = record s { terminal = t; paused = false }

-- Closing an open channel, which is then the one of the current pause.
open_closed :
    (c : ℕ) (t : Option Failure) (s : Control)
    → 1 ≤ c
    → c < s.made
    → has_channel c s.closed_channels ≡ false
    → Waking s
    → Waking (record s { terminal = t; paused = false; closed_channels = c ∷ s.closed_channels })
open_closed c t s low high e w = record {
  below = λ x h. elim (added x c s.closed_channels h) [
    | inl same ↦ omega (arith, same, high)
    | inr old ↦ w.below x old
  ];
  first = w.first;
  current = λ h. cc;
  is_open = λ h. cc;
  ended = λ x one less. elim (w.ended x one less) [
    | inl old ↦ inl (kept x c s.closed_channels old)
    | inr (same, p) ↦ elim (w.ended c low high) [
      | inl old ↦ cc
      | inr (mine, q) ↦ inl (rw (same ∙ sym mine) (newest c s.closed_channels))
    ]
  ];
}

close-Holds :
    (c : ℕ) (t : Option Failure) (s : Control)
    → 1 ≤ c
    → c < s.made
    → Waking s
    → Holds (close_channel c (unpaused t s))
unfolding close_channel
close-Holds c t s low high w = elim (Bool-cases (has_channel c s.closed_channels)) [
  | inl e ↦ rw e (inl refl)
  | inr e ↦ rw e (inr (open_closed c t s low high e w))
]

close-panicked : (c : ℕ) (s : Control) → s.panicked ≡ true → (close_channel c s).panicked ≡ true
unfolding close_channel
close-panicked c s h = elim (Bool-cases (has_channel c s.closed_channels)) [
  | inl e ↦ rw e refl
  | inr e ↦ rw e h
]

below_made : (c n : ℕ) → c < n + 1 → (c == n) ≡ false → c < n
below_made c n h k = ground (arith, ==_iff c n)

-- The channel of a new pause.
mark-Waking :
    (s : Control)
    → s.paused ≡ false
    → Waking s
    → Waking (record s { paused = true; resumed = s.made; made = s.made + 1; terminal = none })
mark-Waking s idle w = record {
  below = λ c h. omega (arith, w.below c h);
  first = omega arith;
  current = λ h. (w.first, omega arith);
  is_open = λ h. elim (Bool-cases (has_channel s.made s.closed_channels)) [
    | inl e ↦ absurd (omega (arith, w.below s.made e))
    | inr e ↦ e
  ];
  ended = λ c one less. elim (Bool-cases (c == s.made)) [
    | inl same ↦ inr ((==_iff c s.made).0 same, refl)
    | inr apart ↦ elim (w.ended c one (below_made c s.made less apart)) [
      | inl old ↦ inl old
      | inr (mine, p) ↦ cc
    ]
  ];
}

pick-Holds :
    {A : Type 0} (f : A → Control) (b : Bool) (x y : A)
    → (b ≡ true → Holds (f x))
    → (b ≡ false → Holds (f y))
    → Holds (f (if b then x else y))
pick-Holds f true x y h k = h refl
pick-Holds f false x y h k = k refl

marked-Holds : (s : Control) → Holds s → Holds (mark_paused s).0
unfolding mark_paused
marked-Holds s (inl p) =
    pick-Holds (λ (x : Control × Bool). x.0) s.paused _ _ (λ e. inl p) (λ e. inl p)
marked-Holds s (inr w) =
    pick-Holds (λ (x : Control × Bool). x.0) s.paused _ _ (λ e. inr w)
      (λ e. inr (mark-Waking s e w))

resumed-Holds : (s : Control) → Holds s → Holds (mark_resumed s)
unfolding mark_resumed
resumed-Holds s (inl p) =
    pick-Holds (λ x. x) s.paused _ _
      (λ e. inl (close-panicked s.resumed (record s { paused = false }) p)) (λ e. inl p)
resumed-Holds s (inr w) =
    pick-Holds (λ x. x) s.paused _ _
      (λ e. close-Holds s.resumed s.terminal s (w.current e).0 (w.current e).1 w) (λ e. inr w)

ended-Waking : (t : Option Failure) (s : Control) → Waking s → Waking (record s { terminal = t })
ended-Waking t s w = record {
  below = w.below;
  first = w.first;
  current = w.current;
  is_open = w.is_open;
  ended = w.ended;
}

terminated-Holds : (f : Failure) (s : Control) → Holds s → Holds (mark_terminated f s)
unfolding mark_terminated
terminated-Holds f s (inl p) =
    pick-Holds (λ x. x) s.paused _ _ (λ e. inl (close-panicked s.resumed (unpaused (some f) s) p))
      (λ e. inl p)
terminated-Holds f s (inr w) =
    pick-Holds (λ x. x) s.paused _ _
      (λ e. close-Holds s.resumed (some f) s (w.current e).0 (w.current e).1 w)
      (λ e. inr (ended-Waking (some f) s w))

part-Holds : (s t : Control) → Section s t → Holds s → Holds t
unfolding pause_failed
part-Holds s _ (marking _) h = marked-Holds s h
part-Holds s _ (failing c _ low high) (inl p) =
    inl (close-panicked c (record s { paused = false }) p)
part-Holds s _ (failing c _ low high) (inr w) = close-Holds c s.terminal s low high w
part-Holds s _ (resuming _) h = resumed-Holds s h
part-Holds s _ (terminating f _) h = terminated-Holds f s h

history-Holds : (s t : Control) → Sections s t → Holds s → Holds t
history-Holds s _ started h = h
history-Holds s _ (followed t u before next) h = part-Holds t u next (history-Holds s t before h)

new-Waking : (lease : RunLease) → Waking (new_control lease)
unfolding has_channel
new-Waking lease = record {
  below = λ c h. cc;
  first = omega arith;
  current = λ h. cc;
  is_open = λ h. cc;
  ended = λ c one less. absurd (omega (arith, one, less));
}

-- However the parts of pausing goroutines and of commands interleave from a new control on, as long
-- as no channel was closed twice: the wait of every pause but the current one is over, with the
-- failure that terminate left, if any; and while the run is paused, the current one blocks.
pub sections-Wake :
    (lease : RunLease) (t : Control)
    → Sections (new_control lease) t
    → t.panicked ≡ false
    → ((c : ℕ)
        → 1 ≤ c
        → c < t.made
        → (wait_resumed c t ≡ some t.terminal) ⊎ ((c ≡ t.resumed) × (t.paused ≡ true)))
      × (t.paused ≡ true → wait_resumed t.resumed t ≡ none)
unfolding wait_resumed
sections-Wake lease t history calm =
    elim (history-Holds (new_control lease) t history (inr (new-Waking lease))) [
      | inl p ↦ cc
      | inr w ↦ (
        λ c low high. elim (w.ended c low high) [ inl e ↦ rw e (inl refl) | inr e ↦ inr e ],
        λ p. rw (w.is_open p) refl,
      )
    ]

failed_pause-panicked :
    (c : ℕ) (s : Control) (r : RunLease × Option String) (e : String)
    → r.1 ≡ some e
    → has_channel c s.closed_channels ≡ true
    → (paused_lease c s r).0.panicked ≡ true
unfolding paused_lease pause_failed close_channel
failed_pause-panicked c s (lease, none) e same h = cc
failed_pause-panicked c s (lease, some x) e same h = rw h refl

pause_closed :
    (d : Disk) (lease : RunLease)
    → lease.closed ≡ true
    → (pause d lease).1 ≡ some "Browser lease is closed"
unfolding pause transition_controller
pause_closed d lease h = rw h refl

close-closes : (c : ℕ) (s : Control) → has_channel c (close_channel c s).closed_channels ≡ true
unfolding close_channel
close-closes c s = elim (Bool-cases (has_channel c s.closed_channels)) [
  | inl e ↦ rw e e
  | inr e ↦ rw e (newest c s.closed_channels)
]

terminated_closed :
    (f : Failure) (s : Control)
    → s.paused ≡ true
    → has_channel s.resumed (mark_terminated f s).closed_channels ≡ true
unfolding mark_terminated
terminated_closed f s p = rw p (close-closes s.resumed (unpaused (some f) s))

terminate-closed :
    (a : Answers) (s : Control)
    → s.paused ≡ true
    → has_channel s.resumed (terminate_control a s).closed_channels ≡ true
unfolding terminate_control
terminate-closed a s p =
    let ended = close_browser_runtime a s.lease in
    let left = close a.close_disk ended.0 in
    terminated_closed (terminal_failure (ended.1 && is_none left.1))
      (record s { framing = false; lease = left.0 }) p

marked_paused : (s : Control) → (mark_paused s).0.paused ≡ true
unfolding mark_paused
marked_paused s = elim (Bool-cases s.paused) [ inl e ↦ rw e refl | inr e ↦ rw e refl ]

-- When a terminate command that closes the lease is handled after the first part of a pause and
-- before the pause of the lease, the channel of the pause is closed twice, so the process panics.
pub terminate_in_pause-panics :
    (d : Disk) (a : Answers) (s : Control)
    → (mark_paused s).1 ≡ true
    → (terminate_control a (mark_paused s).0).lease.closed ≡ true
    → (pause_lease d (mark_paused s).0.resumed (terminate_control a (mark_paused s).0)).0.panicked
      ≡ true
unfolding pause_lease
terminate_in_pause-panics d a s first h =
    let t = terminate_control a (mark_paused s).0 in
    failed_pause-panicked (mark_paused s).0.resumed t (pause d t.lease) "Browser lease is closed"
      (pause_closed d t.lease h) (terminate-closed a (mark_paused s).0 (marked_paused s))
