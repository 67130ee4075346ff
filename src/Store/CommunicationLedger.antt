-- ===== src/Store/CommunicationLedger.antt =====
-- The `administrative_communication_ledger` table of src/feishu_dify_gateway/store.py.
use feishu_dify_gateway.Base.{ℕ, ◌+◌, String, Bool, true, false, Option, none, some}
use feishu_dify_gateway.Text.{Text}
use feishu_dify_gateway.Table.{find, update, insert_or_ignore}
use feishu_dify_gateway.Store.Rows.{
  CommunicationStatus, AdministrativeCommunicationLedgerEntry, StateStore,
}

-- The row that `begin_administrative_communication` inserts.
abbrev pub communication_row : Text → Text → Text → ℕ → AdministrativeCommunicationLedgerEntry
communication_row event_id body_digest recipient_digest now = record {
  event_id = event_id;
  body_digest = body_digest;
  recipient_digest = recipient_digest;
  status = CommunicationStatus.prepared;
  transport_accepted = false;
  delivery_confirmed = false;
  attempts = 0;
  provider_message_ref = none;
  last_error_code = "";
  created_at = now;
  updated_at = now;
  transport_accepted_at = none;
  delivery_confirmed_at = none;
}

-- The SET clauses of the three `mark_administrative_communication_` operations.
abbrev pub accepted :
    Option Text
    → ℕ
    → AdministrativeCommunicationLedgerEntry
    → AdministrativeCommunicationLedgerEntry
accepted provider_message_ref now old = record old {
  status = CommunicationStatus.transport_accepted;
  transport_accepted = true;
  attempts = old.attempts + 1;
  provider_message_ref = provider_message_ref;
  updated_at = now;
  transport_accepted_at = some now;
  last_error_code = "";
}

abbrev pub ended_as :
    CommunicationStatus
    → String
    → ℕ
    → AdministrativeCommunicationLedgerEntry
    → AdministrativeCommunicationLedgerEntry
ended_as status error_code now old = record old {
  status = status;
  attempts = old.attempts + 1;
  updated_at = now;
  last_error_code = error_code;
}

module _ (s : StateStore) (event_id : Text) where
  unfoldable pub begin_administrative_communication :
      (body_digest recipient_digest : Text) (now : ℕ) → Bool × StateStore
  begin_administrative_communication body_digest recipient_digest now =
      let (t, inserted) =
        insert_or_ignore AdministrativeCommunicationLedgerEntry.event_id
          (communication_row event_id body_digest recipient_digest now)
          s.administrative_communication_ledger in
      (inserted, record s { administrative_communication_ledger = t })

  unfoldable pub administrative_communication_for : Option AdministrativeCommunicationLedgerEntry
  administrative_communication_for =
      find AdministrativeCommunicationLedgerEntry.event_id event_id
        s.administrative_communication_ledger

  unfoldable pub mark_administrative_communication_transport_accepted :
      (provider_message_ref : Option Text) (now : ℕ) → StateStore
  mark_administrative_communication_transport_accepted provider_message_ref now = record s {
    administrative_communication_ledger =
        update AdministrativeCommunicationLedgerEntry.event_id event_id
          (accepted provider_message_ref now) s.administrative_communication_ledger;
  }

  unfoldable pub mark_administrative_communication_unknown :
      (error_code : String) (now : ℕ) → StateStore
  mark_administrative_communication_unknown error_code now = record s {
    administrative_communication_ledger =
        update AdministrativeCommunicationLedgerEntry.event_id event_id
          (ended_as CommunicationStatus.outcome_unknown error_code now)
          s.administrative_communication_ledger;
  }

  unfoldable pub mark_administrative_communication_failed :
      (error_code : String) (now : ℕ) → StateStore
  mark_administrative_communication_failed error_code now = record s {
    administrative_communication_ledger =
        update AdministrativeCommunicationLedgerEntry.event_id event_id
          (ended_as CommunicationStatus.permanent_failed error_code now)
          s.administrative_communication_ledger;
  }
