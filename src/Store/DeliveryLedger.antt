-- ===== src/Store/DeliveryLedger.antt =====
-- The `notification_delivery_ledger` table of src/feishu_dify_gateway/store.py.
use feishu_dify_gateway.Base.{ℕ, ◌+◌, String, true, false, Option, none, some, or_else}
use feishu_dify_gateway.Text.{Text}
use feishu_dify_gateway.Table.{find, update, insert_or_ignore, upsert}
use feishu_dify_gateway.Store.Rows.{DeliveryStatus, DeliveryLedgerEntry, StateStore}

-- The row that `begin_delivery` inserts for a new event; columns that it does not name have the
-- defaults of the table.
abbrev pub delivering_row : Text → String → ℕ → DeliveryLedgerEntry
delivering_row event_id source now = record {
  event_id = event_id;
  source = source;
  status = DeliveryStatus.delivering;
  transport_accepted = true;
  delivery_confirmed = false;
  attempts = 1;
  last_error_code = "";
  created_at = now;
  updated_at = now;
  transport_accepted_at = some now;
  delivery_confirmed_at = none;
  next_retry_at = none;
  terminal_at = none;
  synthetic = false;
}

-- The ON CONFLICT clause of `begin_delivery`.
abbrev pub redelivering : String → ℕ → DeliveryLedgerEntry → DeliveryLedgerEntry
redelivering source now old = record old {
  source = source;
  status = DeliveryStatus.delivering;
  transport_accepted = true;
  attempts = old.attempts + 1;
  last_error_code = "";
  updated_at = now;
  transport_accepted_at = or_else old.transport_accepted_at (some now);
  next_retry_at = none;
  terminal_at = none;
}

-- The SET clauses of the three `mark_delivery_` operations.
abbrev pub confirmed : ℕ → DeliveryLedgerEntry → DeliveryLedgerEntry
confirmed now old = record old {
  status = DeliveryStatus.delivery_confirmed;
  delivery_confirmed = true;
  updated_at = now;
  delivery_confirmed_at = some now;
  next_retry_at = none;
  terminal_at = some now;
  last_error_code = "";
}

abbrev pub retrying : String → ℕ → ℕ → DeliveryLedgerEntry → DeliveryLedgerEntry
retrying error_code next_retry_at now old = record old {
  status = DeliveryStatus.retrying;
  updated_at = now;
  last_error_code = error_code;
  next_retry_at = some next_retry_at;
  terminal_at = none;
}

abbrev pub permanently_failed : String → ℕ → DeliveryLedgerEntry → DeliveryLedgerEntry
permanently_failed error_code now old = record old {
  status = DeliveryStatus.permanent_failed;
  updated_at = now;
  last_error_code = error_code;
  next_retry_at = none;
  terminal_at = some now;
}

-- The row that `prepare_synthetic_delivery` inserts.
abbrev pub synthetic_row : Text → String → ℕ → DeliveryLedgerEntry
synthetic_row event_id source now = record {
  event_id = event_id;
  source = source;
  status = DeliveryStatus.prepared;
  transport_accepted = false;
  delivery_confirmed = false;
  attempts = 0;
  last_error_code = "";
  created_at = now;
  updated_at = now;
  transport_accepted_at = none;
  delivery_confirmed_at = none;
  next_retry_at = none;
  terminal_at = none;
  synthetic = true;
}

module _ (s : StateStore) (event_id : Text) where
  unfoldable pub begin_delivery : (source : String) (now : ℕ) → StateStore
  begin_delivery source now = record s {
    notification_delivery_ledger =
        upsert DeliveryLedgerEntry.event_id (delivering_row event_id source now)
          (redelivering source now) s.notification_delivery_ledger;
  }

  unfoldable pub mark_delivery_confirmed : (now : ℕ) → StateStore
  mark_delivery_confirmed now = record s {
    notification_delivery_ledger =
        update DeliveryLedgerEntry.event_id event_id (confirmed now) s.notification_delivery_ledger;
  }

  unfoldable pub mark_delivery_retrying : (error_code : String) (next_retry_at now : ℕ) → StateStore
  mark_delivery_retrying error_code next_retry_at now = record s {
    notification_delivery_ledger =
        update DeliveryLedgerEntry.event_id event_id (retrying error_code next_retry_at now)
          s.notification_delivery_ledger;
  }

  unfoldable pub mark_delivery_permanent_failed : (error_code : String) (now : ℕ) → StateStore
  mark_delivery_permanent_failed error_code now = record s {
    notification_delivery_ledger =
        update DeliveryLedgerEntry.event_id event_id (permanently_failed error_code now)
          s.notification_delivery_ledger;
  }

  unfoldable pub delivery_for : Option DeliveryLedgerEntry
  delivery_for = find DeliveryLedgerEntry.event_id event_id s.notification_delivery_ledger

  -- `none` is the RuntimeError of an entry that is not there.
  unfoldable pub prepare_synthetic_delivery :
      (source : String) (now : ℕ) → Option DeliveryLedgerEntry × StateStore
  prepare_synthetic_delivery source now =
      let (t, _) =
        insert_or_ignore DeliveryLedgerEntry.event_id (synthetic_row event_id source now)
          s.notification_delivery_ledger in
      (find DeliveryLedgerEntry.event_id event_id t, record s { notification_delivery_ledger = t })
