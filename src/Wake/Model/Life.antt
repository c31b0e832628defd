-- ===== src/Wake/Model/Life.antt =====
-- The life of a wake request: which phases may follow one another, and what a phase says of the
-- times that the request carries.
use rdesk.Prelude.{ℕ, ◌≡◌, Bool, true, false, ◌&&◌, ◌||◌, not, Option, arith, is_some}
use rdesk.Wake.Model.{
  WakeRequest, WakePhase, queued, claimed, sent, online, unconfirmed, failed, cancelled,
  interrupted, active, waiting, advance, interrupt, cancel_if,
}

-- The phases in the order of a request's life, as numbers that tell them apart.
unfoldable pub same_phase : WakePhase → WakePhase → Bool
same_phase queued queued = true
same_phase claimed claimed = true
same_phase sent sent = true
same_phase online online = true
same_phase unconfirmed unconfirmed = true
same_phase WakePhase.expired WakePhase.expired = true
same_phase failed failed = true
same_phase cancelled cancelled = true
same_phase interrupted interrupted = true
same_phase _ _ = false

-- The steps forward. What has ended has none.
unfoldable pub step_to : WakePhase → WakePhase → Bool
unfolding active waiting
step_to queued claimed = true
step_to claimed sent = true
step_to claimed failed = true
step_to sent online = true
step_to sent unconfirmed = true
step_to p WakePhase.expired = waiting p
step_to p cancelled = active p
step_to p interrupted = active p
step_to _ _ = false

abbrev pub Follows : WakePhase → WakePhase → Type 0
Follows p q = (same_phase p q || step_to p q) ≡ true

-- A request that is sent was authorized and has the time of its sending; one that is seen online
-- also has the time of that; none is sent before it is claimed, or authorized before.
unfoldable pub sound_at : WakePhase → Bool → Bool → Bool → Bool
sound_at queued authorized sent_at online_at = not authorized && not sent_at && not online_at
sound_at claimed authorized sent_at online_at = not sent_at && not online_at
sound_at sent authorized sent_at online_at = authorized && sent_at && not online_at
sound_at online authorized sent_at online_at = authorized && sent_at && online_at
sound_at unconfirmed authorized sent_at online_at = authorized && sent_at && not online_at
sound_at _ authorized sent_at online_at = not online_at

abbrev pub IsSound : WakeRequest → Type 0
IsSound r =
    sound_at r.phase (is_some r.authorized_at_ms) (is_some r.sent_at_ms) (is_some r.online_at_ms)
    ≡ true

pub same_phase_refl : (p : WakePhase) → same_phase p p ≡ true
unfolding same_phase
same_phase_refl p = ground arith

pub advance-Follows :
    (now : ℕ) (seen : Option ℕ) (r : WakeRequest) → Follows r.phase (advance now seen r).phase
unfolding advance same_phase step_to
advance-Follows now seen r = ground arith

pub advance-IsSound :
    (now : ℕ) (seen : Option ℕ) (r : WakeRequest) → IsSound r → IsSound (advance now seen r)
unfolding advance sound_at
advance-IsSound now seen r h = ground arith

pub interrupt-Follows : (r : WakeRequest) → Follows r.phase (interrupt r).phase
unfolding interrupt same_phase step_to
interrupt-Follows r = ground arith

pub interrupt-IsSound : (r : WakeRequest) → IsSound r → IsSound (interrupt r)
unfolding interrupt sound_at active
interrupt-IsSound r h = ground arith

pub cancel_if-IsSound :
    (p : WakeRequest → Bool) (r : WakeRequest) → IsSound r → IsSound (cancel_if p r)
unfolding cancel_if sound_at active
cancel_if-IsSound p r h = ground arith
