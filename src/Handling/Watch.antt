-- ===== src/Handling/Watch.antt =====
-- The watch channel between the `Observers` of a resource, in observers.rs, and the loop of `do_handle`
-- in resource_handler.rs: what the loop sees of the changes that a resource tells.
use coap_server_rs.Base.{Bool, true, false, Option, none, some, List, [], ◌∷◌, ◌≡◌}
use coap_server_rs.Coap.{Coap}
use coap_server_rs.Coap.Options.{Options}
use coap_server_rs.U24.{U24}
use coap_server_rs.Observers.{Observers, NotificationState, resource_changed, notify_change}
use coap_server_rs.Handling.{Round}
use coap_server_rs.Handling.Loop.{LoopEvent, notified, Delivery}

-- `tokio::sync::watch`: `changed` gives the value that has been sent last, once; a receiver that
-- subscribes has seen the value that is there.
pub record Watch : Type 1 where
  pub Channel : Type 0
  pub subscribe : NotificationState → Channel
  pub send : NotificationState → Channel → Channel
  pub changed : Channel → Option (NotificationState × Channel)
  pub changed-subscribe : (v : NotificationState) → changed (subscribe v) ≡ none
  pub changed-send :
      (v : NotificationState) (channel : Channel)
      → (seen : Channel) × (changed (send v channel) ≡ some (v, seen)) × (changed seen ≡ none)

-- The resource tells a change, or the loop comes to its select with an answer and a delivery for the
-- notification that may be due.
pub data Turn (Packet Endpoint Tx F : Type 0) : Type 0 where
  tells : Turn Packet Endpoint Tx F
  selects : Round Packet Endpoint → Delivery Endpoint Tx F → Turn Packet Endpoint Tx F

-- The events of the loop, and the resource's handle and the channel after them.
pub record Watched (Packet Endpoint Tx F Channel : Type 0) : Type 0 where
  pub events : List (LoopEvent Packet Endpoint Tx F)
  pub observers : Observers Tx
  pub channel : Channel

module _ (w : Watch) {Packet Endpoint Tx F : Type 0} where
  open w use {Channel, subscribe, send, changed}

  abbrev also_seen :
      LoopEvent Packet Endpoint Tx F
      → Watched Packet Endpoint Tx F Channel
      → Watched Packet Endpoint Tx F Channel
  also_seen event rest = record rest { events = event ∷ rest.events }

  -- A change is sent on the channel of the handle. The select waits while nothing has changed.
  unfoldable pub watch :
      Observers Tx
      → Channel
      → List (Turn Packet Endpoint Tx F)
      → Watched Packet Endpoint Tx F Channel
  unfolding notify_change
  watch observers channel [] = record { events = []; observers = observers; channel = channel }
  watch observers channel (tells ∷ turns) =
      let told = notify_change observers in watch told.0 (send told.1 channel) turns
  watch observers channel (selects round d ∷ turns) = elim (changed channel) [
    | none ↦ watch observers channel turns
    | some (state, seen) ↦ also_seen (notified state round d) (watch observers seen turns)
  ]

  abbrev pub has_change : List (Turn Packet Endpoint Tx F) → Bool
  has_change [] = false
  has_change (tells ∷ turns) = true
  has_change (selects _ _ ∷ turns) = has_change turns

abbrev pub last_or : {A : Type 0} → Option A → List A → Option A
last_or found [] = found
last_or found (x ∷ xs) = last_or (some x) xs

module _ (w : Watch) {Tx : Type 0} where
  open w use {Channel, changed}

  -- Nothing is due on the channel, or the number of the handle is, once.
  abbrev IsDue : Bool → Observers Tx → Channel → Type 0
  IsDue false observers channel = changed channel ≡ none
  IsDue true observers channel =
      (seen : Channel) × (changed channel ≡ some (resource_changed observers.change_num, seen))
      × (changed seen ≡ none)

module _ {A B : Type 0} (g : A → B) where
  abbrev mapped : Option A → Option B
  mapped none = none
  mapped (some a) = some (g a)
