-- ===== src/Store/Retention.antt =====
-- What `prune` of src/feishu_dify_gateway/store.py deletes and what it spares.
use feishu_dify_gateway.Store.Rows.{
  DeliveryStatus, DeliveryLedgerEntry, CommunicationStatus, AdministrativeCommunicationLedgerEntry,
  StateStore,
}
use feishu_dify_gateway.Store.Coherence.{IsWellFormed, IsCoherentCommunication}
use feishu_dify_gateway.Base.{refl, ℕ, ◌≡◌, some, ◌≢◌, ◌⊎◌, ◌≤◌, ◌+◌, arith, length}
use feishu_dify_gateway.Text.{Text}
use feishu_dify_gateway.Store.Prune.{prune}
use feishu_dify_gateway.Store.DeliveryLedger.{delivery_for}
use feishu_dify_gateway.Store.CommunicationLedger.{administrative_communication_for}
use feishu_dify_gateway.Table.Laws.{find-AllRows, find-delete_where, length-delete_where}

module _ (s : StateStore) (h : IsWellFormed s) (retention now : ℕ) (k : Text) where
  -- In a well-formed store a delivery that is in progress or waits for a retry stays as it is,
  -- however old, and so does every row that was written within the retention time.
  pub prune-delivery_for :
      (e : DeliveryLedgerEntry)
      → delivery_for s k ≡ some e
      → (e.status ≡ DeliveryStatus.delivering)
        ⊎ (e.status ≡ DeliveryStatus.retrying)
        ⊎ (now ≤ e.updated_at + retention)
      → delivery_for (prune s retention now).1 k ≡ some e
  unfolding prune delivery_for
  prune-delivery_for e found kept =
      rw
        (find-delete_where DeliveryLedgerEntry.event_id k _ s.notification_delivery_ledger
          h.deliveries.0)
        (ground arith)

  -- In a well-formed store a communication stays as it is, however old, unless it failed for good.
  pub prune-communication_for :
      (e : AdministrativeCommunicationLedgerEntry)
      → administrative_communication_for s k ≡ some e
      → e.status ≢ CommunicationStatus.permanent_failed
      → administrative_communication_for (prune s retention now).1 k ≡ some e
  unfolding prune administrative_communication_for
  prune-communication_for e found kept =
      let c =
        find-AllRows AdministrativeCommunicationLedgerEntry.event_id IsCoherentCommunication k
          s.administrative_communication_ledger e h.communications.1 found in
      rw
        (find-delete_where AdministrativeCommunicationLedgerEntry.event_id k _
          s.administrative_communication_ledger h.communications.0)
        (ground (arith, c.never_confirmed))

-- How many rows the three tables have that `prune` deletes from.
abbrev pub rows : StateStore → ℕ
rows s =
    length s.processed_events
    + length s.notification_delivery_ledger
    + length s.administrative_communication_ledger

add_counts :
    (a b c a' b' c' a'' b'' c'' : ℕ)
    → a + b ≡ c
    → a' + b' ≡ c'
    → a'' + b'' ≡ c''
    → (a + a' + a'') + (b + b' + b'') ≡ c + c' + c''
add_counts a b c a' b' c' a'' b'' c'' e e' e'' = omega arith

-- The number that `prune` returns is the number of rows that it deletes, and no conversation is
-- among them.
pub prune_count :
    (s : StateStore) (retention now : ℕ)
    → let (deleted, s') = prune s retention now in
      (rows s' + deleted ≡ rows s) × (s'.conversations ≡ s.conversations)
unfolding prune
prune_count s retention now = (
  add_counts _ _ _ _ _ _ _ _ _ (length-delete_where _ s.processed_events)
      (length-delete_where _ s.notification_delivery_ledger)
      (length-delete_where _ s.administrative_communication_ledger),
  refl,
)
