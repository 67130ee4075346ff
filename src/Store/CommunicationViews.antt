-- ===== src/Store/CommunicationViews.antt =====
-- What each operation on the communication ledger of src/feishu_dify_gateway/store.py shows to a
-- later query of it.
use feishu_dify_gateway.Base.{
  ℕ, String, ◌≡◌, refl, ap, ◌∙◌, true, not, Option, none, some, if◌then◌else◌, is_some, option_map,
  or_else,
}
use feishu_dify_gateway.Text.{Text, same}
use feishu_dify_gateway.Table.Laws.{find-update, find-insert_or_ignore, insert_or_ignore-inserted}
use feishu_dify_gateway.Store.Rows.{
  AdministrativeCommunicationLedgerEntry, CommunicationStatus, StateStore,
}
use feishu_dify_gateway.Store.CommunicationLedger.{
  communication_row, accepted, ended_as, begin_administrative_communication,
  administrative_communication_for, mark_administrative_communication_transport_accepted,
  mark_administrative_communication_unknown,
}

module _ (s : StateStore) (k j : Text) where
  pub communication_for-begin :
      (body recipient : Text) (now : ℕ)
      → administrative_communication_for
          (begin_administrative_communication s k body recipient now).1
          j
        ≡ or_else
            (administrative_communication_for s j)
            (if same k j then some (communication_row k body recipient now) else none)
  unfolding administrative_communication_for begin_administrative_communication
  communication_for-begin body recipient now =
      find-insert_or_ignore AdministrativeCommunicationLedgerEntry.event_id j
        (communication_row k body recipient now) s.administrative_communication_ledger

  pub communication_for-accepted :
      (ref : Option Text) (now : ℕ)
      → administrative_communication_for
          (mark_administrative_communication_transport_accepted s k ref now)
          j
        ≡ (if same k j
            then option_map (accepted ref now) (administrative_communication_for s j)
            else administrative_communication_for s j)
  unfolding administrative_communication_for mark_administrative_communication_transport_accepted
  communication_for-accepted ref now =
      find-update AdministrativeCommunicationLedgerEntry.event_id k j (accepted ref now)
        s.administrative_communication_ledger (λ e. refl)

  pub communication_for-unknown :
      (code : String) (now : ℕ)
      → administrative_communication_for (mark_administrative_communication_unknown s k code now) j
        ≡ (if same k j
            then option_map
                (ended_as CommunicationStatus.outcome_unknown code now)
                (administrative_communication_for s j)
            else administrative_communication_for s j)
  unfolding administrative_communication_for mark_administrative_communication_unknown
  communication_for-unknown code now =
      find-update AdministrativeCommunicationLedgerEntry.event_id k j
        (ended_as CommunicationStatus.outcome_unknown code now)
        s.administrative_communication_ledger (λ e. refl)

module _ (s : StateStore) (k : Text) where
  pub begin_inserted :
      (body recipient : Text) (now : ℕ)
      → administrative_communication_for s k ≡ none
      → (begin_administrative_communication s k body recipient now).0 ≡ true
  unfolding administrative_communication_for begin_administrative_communication
  begin_inserted body recipient now free =
      insert_or_ignore-inserted AdministrativeCommunicationLedgerEntry.event_id
        (communication_row k body recipient now) s.administrative_communication_ledger
      ∙ ap (λ o. not (is_some o)) free
