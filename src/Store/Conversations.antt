-- ===== src/Store/Conversations.antt =====
-- The `conversations` table of src/feishu_dify_gateway/store.py.
use feishu_dify_gateway.Base.{ℕ, none, some, []}
use feishu_dify_gateway.Text.{Text, same}
use feishu_dify_gateway.Table.{find, upsert, delete_where}
use feishu_dify_gateway.Store.Rows.{ConversationRow, StateStore}

module _ (s : StateStore) (user_hash : Text) where
  unfoldable pub conversation_for : Text
  conversation_for = elim (find ConversationRow.user_hash user_hash s.conversations) [
    | none ↦ []
    | some row ↦ row.conversation_id
  ]

  unfoldable pub set_conversation : (conversation_id : Text) (now : ℕ) → StateStore
  set_conversation conversation_id now =
      let row : ConversationRow = record {
        user_hash = user_hash;
        conversation_id = conversation_id;
        updated_at = now;
      } in
      record s {
        conversations =
            upsert ConversationRow.user_hash row
              (λ old. record old { conversation_id = conversation_id; updated_at = now })
              s.conversations;
      }

  unfoldable pub clear_conversation : StateStore
  clear_conversation = record s {
    conversations = delete_where (λ row. same row.user_hash user_hash) s.conversations;
  }
