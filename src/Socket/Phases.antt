-- ===== src/Socket/Phases.antt =====
-- The phases of a connection that its client leaves to itself: a socket, or a pending attempt, or
-- neither after the last attempt.
pub mod Steps
pub mod Runs
use learn_pg.Prelude.{
  ℕ, ◌+◌, ◌<◌, ◌≤◌, ◌≡◌, ◌≢◌, refl, sym, ap, subst, ◌∙◌, ◌⊎◌, inl, inr, Bool, true, false, ◌&&◌,
  ◌||◌, not, Option, none, some, List, [], ◌∷◌, String, ltb, leb, if◌then◌else◌, ◌==◌, nat_eq,
  beq_refl, beq-ne, beq→eq, beq_ne→ne, arith, Bool-cases, All,
}
use mathlib.Core.Option.{some-injective}
use learn_pg.Api.Types.{JsonResult, json_value, syntax_error}
use learn_pg.Socket.Timers.{Timer, clear, arm, is_live, fired}
use learn_pg.Socket.Types.{
  Status, Ready, Config, Hook, initial, Moment, Event, accepted, received, errored, went_away,
  reconnect_due, heartbeat_due, stale_due,
}
use learn_pg.Socket.Refs.{
  update, emit, is_closed, is_connecting, is_opened, is_ping, closing_of, close_socket,
  clear_timers, holds_open,
}
use learn_pg.Socket.Hook.{
  at_cap, arm_stale_timer, start_heartbeat, deliver_parsed, handle_open, handle_message,
  handle_error, handle_close, settle_close, schedule_reconnect, connect, construct, beat, transmit,
  mount, deliver, run,
}

-- The part of the hook that decides on connections.
pub record Core : Type 0 where
  pub ready : ℕ → Ready
  pub created : ℕ
  pub ws_ref : Option ℕ
  pub reconnect : Timer
  pub attempts : ℕ
  pub should_reconnect : Bool
  pub status : Status

abbrev pub core : Hook → Core
core s = record {
  ready = s.ready;
  created = s.created;
  ws_ref = s.ws_ref;
  reconnect = s.reconnect;
  attempts = s.attempts;
  should_reconnect = s.should_reconnect;
  status = s.status;
}

-- Every socket but `w` is closed.
abbrev pub AllClosedBut : ℕ → (ℕ → Ready) → Type 0
AllClosedBut w ready = (i : ℕ) → i ≢ w → ready i ≡ Ready.closed

abbrev pub AllClosed : (ℕ → Ready) → Type 0
AllClosed ready = (i : ℕ) → ready i ≡ Ready.closed

-- The ref holds the one socket that is not closed, and no attempt is pending.
abbrev pub IsConnected : Core → Type 0
IsConnected c =
    (w : ℕ) × (c.ws_ref ≡ some w)
    × (is_closed (c.ready w) ≡ false)
    × AllClosedBut w c.ready
    × (c.reconnect.live ≡ [])

-- No socket is left, and exactly one attempt is pending, which the ref knows.
abbrev pub IsWaiting : Core → Type 0
IsWaiting c =
    (t : ℕ) × (c.ws_ref ≡ none)
    × AllClosed c.ready
    × (c.reconnect.live ≡ t ∷ [])
    × (c.reconnect.ref ≡ some t)

-- No socket is left, none is attempted any more, and the status says so; the limit has been reached.
abbrev pub HasGivenUp : Config → Core → Type 0
HasGivenUp cfg c =
    (c.ws_ref ≡ none)
    × AllClosed c.ready
    × (c.reconnect.live ≡ [])
    × (c.status ≡ Status.closed)
    × (0 < cfg.max_reconnect_attempts)
    × (cfg.max_reconnect_attempts ≤ c.attempts)

abbrev pub InPhase : Config → Core → Type 0
InPhase cfg c = (c.should_reconnect ≡ true) × (IsConnected c ⊎ (IsWaiting c ⊎ HasGivenUp cfg c))

update_same : (f : ℕ → Ready) (i : ℕ) (r : Ready) → update f i r i ≡ r
update_same f i r = rw (beq_refl i) refl

pub update_other : (f : ℕ → Ready) (i j : ℕ) (r : Ready) → j ≢ i → update f i r j ≡ f j
update_other f i j r n = rw (beq-ne j i n) refl

pub closed-update : (f : ℕ → Ready) (w : ℕ) → AllClosedBut w f → AllClosed (update f w Ready.closed)
closed-update f w h i = elim (Bool-cases (i == w)) [
  | inl same ↦ rw same refl
  | inr other ↦ rw other (h i (beq_ne→ne i w other))
]

but-update : (f : ℕ → Ready) (w : ℕ) (r : Ready) → AllClosedBut w f → AllClosedBut w (update f w r)
but-update f w r h i n = update_other f w i r n ∙ h i n

-- A socket that is not closed can only be the one that is held.
held-of : (f : ℕ → Ready) (w i : ℕ) → AllClosedBut w f → is_closed (f i) ≡ false → i ≡ w
held-of f w i h open_i = elim (Bool-cases (i == w)) [
  | inl same ↦ beq→eq i w same
  | inr other ↦ absurd (cc (ap is_closed (h i (beq_ne→ne i w other)), open_i))
]

closed_not_connecting : (r : Ready) → is_connecting r ≡ true → is_closed r ≡ false
closed_not_connecting Ready.connecting h = refl
closed_not_connecting Ready.opened h = absurd (cc)
closed_not_connecting Ready.closing h = absurd (cc)
closed_not_connecting Ready.closed h = absurd (cc)

closing-open : (r : Ready) → is_closed r ≡ false → is_closed (closing_of r) ≡ false
closing-open Ready.connecting h = refl
closing-open Ready.opened h = refl
closing-open Ready.closing h = refl
closing-open Ready.closed h = h
