-- ===== src/Execution/Live/Recover/Stale.antt =====
-- execution/LiveExecutionEngine.ts: an exchange that does not carry the client order id back, and the
-- order that stays unresolved on the ledger.
use cryptotradingbot.Common.{
  ◌≡◌, ◌∙◌, true, false, some, [], ◌∷◌, String, str_eq, arith, Bool-cases, inl, inr,
}
use cryptotradingbot.Common.Dict.{Dict, lookup}
use cryptotradingbot.Reconcile.Model.{Order}
use cryptotradingbot.Risk.Doubles.{Doubles}
use cryptotradingbot.Execution.Live.Model.{
  NewOrder, LiveConfig, Replies, Engine, done, thrown, unresolved_exists,
}
use cryptotradingbot.Execution.Live.Submit.{blocks, has_unresolved, check_submission, submit}
use cryptotradingbot.Execution.Live.Recover.{ReadReplies, lacks_id, refresh_order}
use cryptotradingbot.Execution.Live.Recover.Attach.{refresh_order_elsewhere}

found_blocks :
    (orders : Dict Order) (id : String) (o : Order)
    → lookup id orders ≡ some o
    → blocks o ≡ true
    → has_unresolved orders ≡ true
unfolding has_unresolved lookup
found_blocks [] id o l b = cc
found_blocks ((k, x) ∷ rest) id o l b = elim (Bool-cases (str_eq k id)) [
  | inl e ↦ ground (arith, e, l, b)
  | inr e ↦ ground (arith, e, l, found_blocks rest id o (ground (arith, e, l)) b)
]

-- After refreshOrder on an unresolved live order of the ledger, where the exchange's answer carries
-- another client order id (NDAX's carry none), every later submission is refused for the unresolved order,
-- whatever status the exchange reported, and changes nothing.
pub refresh_order_stale :
    {F : Type 0} (d : Doubles F) (cfg : LiveConfig F) (reads : ReadReplies) (r : Replies F)
    (order live : Order) (later : NewOrder) (s : Engine)
    → lookup order.client_order_id s.orders ≡ some order
    → blocks order ≡ true
    → lacks_id order.exchange_order_id ≡ false
    → reads.order_status_read ≡ done live
    → reads.recovery_saved ≡ true
    → str_eq live.client_order_id order.client_order_id ≡ false
    → r.ledger_readable ≡ true
    → let after = (refresh_order reads order s).1 in
      submit d cfg r later after ≡ (thrown unresolved_exists, after)
unfolding submit check_submission
refresh_order_stale d cfg reads r order live later s on_ledger b given answer w other readable =
    let (_, same, _) = refresh_order_elsewhere reads order live s given answer w other in
    let after = (refresh_order reads order s).1 in
    let stuck = found_blocks after.orders order.client_order_id order (same ∙ on_ledger) b in
    ground (arith, stuck, readable)
