-- ===== src/Execution/Live/Submit/Quiet.antt =====
-- execution/LiveExecutionEngine.ts: what was sent, and the steps of a submission that send nothing.
use cryptotradingbot.Common.{◌≡◌, ◌⊎◌, refl, some, List, [], ◌∷◌, arith, if_cases, if◌then◌else◌}
use cryptotradingbot.Portfolio.Model.{Portfolio}
use cryptotradingbot.Reconcile.Model.{created}
use cryptotradingbot.Portfolio.Reserve.{release_order_reservation}
use cryptotradingbot.Risk.Doubles.{Doubles}
use cryptotradingbot.Execution.Live.Model.{
  NewOrder, LiveConfig, Replies, Engine, Event, loaded, corrupt, missing, unusable, sent, recorded,
  reserved_quote, released_quote,
}
use cryptotradingbot.Execution.Live.Hooks.{reserve, release}

-- The orders sent, the latest first.
unfoldable pub sent_orders : List Event → List NewOrder
sent_orders [] = []
sent_orders (sent order ∷ rest) = order ∷ sent_orders rest
sent_orders (recorded o ∷ rest) = sent_orders rest
sent_orders (reserved_quote order ∷ rest) = sent_orders rest
sent_orders (released_quote order ∷ rest) = sent_orders rest

-- The order was recorded as CREATED.
abbrev pub WasCreated : NewOrder → List Event → Type 0
WasCreated order [] = ⊥
WasCreated order (recorded o ∷ rest) =
    ((o.client_order_id ≡ order.client_order_id) × (o.order_status ≡ created))
    ⊎ WasCreated order rest
WasCreated order (sent other ∷ rest) = WasCreated order rest
WasCreated order (reserved_quote other ∷ rest) = WasCreated order rest
WasCreated order (released_quote other ∷ rest) = WasCreated order rest

-- Every order that was sent had been recorded as CREATED before.
abbrev pub IsRecordedFirst : List Event → Type 0
IsRecordedFirst [] = Unit
IsRecordedFirst (sent order ∷ rest) = WasCreated order rest × IsRecordedFirst rest
IsRecordedFirst (recorded o ∷ rest) = IsRecordedFirst rest
IsRecordedFirst (reserved_quote order ∷ rest) = IsRecordedFirst rest
IsRecordedFirst (released_quote order ∷ rest) = IsRecordedFirst rest

-- Neither the ledger nor what was sent has changed.
pub record IsQuiet (s t : Engine) : Type 0 where
  pub same_orders : t.orders ≡ s.orders
  pub same_sent : sent_orders t.events ≡ sent_orders s.events
  pub still_recorded : IsRecordedFirst s.events → IsRecordedFirst t.events

pub IsQuiet-refl : (s : Engine) → IsQuiet s s
IsQuiet-refl s = record { same_orders = refl; same_sent = refl; still_recorded = λ h. h }

module _ {F : Type 0} (r : Replies F) (order : NewOrder) where
  IsQuiet-released :
      (s : Engine) (m : Portfolio)
      → IsQuiet s (record s { managed = m; events = released_quote order ∷ s.events })
  unfolding sent_orders
  IsQuiet-released s m = record { same_orders = refl; same_sent = refl; still_recorded = λ h. h }

  pub release-IsQuiet : (s : Engine) → IsQuiet s (release r order s)
  unfolding release
  release-IsQuiet s =
      elim r.managed_file
        as (λ f. IsQuiet s (elim f [
          | corrupt ↦ s
          | missing ↦ s
          | unusable ↦ s
          | loaded ↦
              if r.release_saved
              then record s {
                managed = release_order_reservation s.managed order.client_order_id;
                events = released_quote order ∷ s.events;
              }
              else s
        ])) [
          | corrupt ↦ IsQuiet-refl s
          | missing ↦ IsQuiet-refl s
          | unusable ↦ IsQuiet-refl s
          | loaded ↦
              if_cases (IsQuiet s) r.release_saved _ _ (λ _. IsQuiet-released s _)
                (λ _. IsQuiet-refl s)
        ]

  pub reserve-IsQuiet :
      (d : Doubles F) (cfg : LiveConfig F) (s : Engine) {t : Engine}
      → reserve d cfg r order s ≡ some t
      → IsQuiet s t
  unfolding reserve sent_orders
  reserve-IsQuiet d cfg s h = ground (arith, h)
