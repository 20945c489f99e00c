-- ===== src/Client/Messages/Turns.antt =====
-- src/acp_proxy/client.py: the message that anchors a conversation and the one that a turn sends, where
-- every request repeats the history.
use mathlib.Core.List.{reverse_aux}
use acp_test.Base.{◌≡◌, refl, ap, ◌∙◌, true, false, some, List, [], ◌∷◌, ◌++◌, any, arith}
use acp_test.Json.{Fields, get_or_null}
use acp_test.State.{ok}
use acp_test.Client.Messages.{
  is_user, find_user, text_or, extract_text, extract_first_user_message, extract_last_user_message,
}

find_user-append :
    (ms : List Fields) (more : List Fields)
    → any is_user ms ≡ true
    → find_user (ms ++ more) ≡ find_user ms
unfolding find_user
find_user-append [] more h = cc
find_user-append (m ∷ ms) more h = ground (arith, find_user-append ms more)

-- Messages without a user's are passed over from behind.
find_user-reverse_aux :
    (ms : List Fields) (r : List Fields)
    → any is_user ms ≡ false
    → find_user (reverse_aux ms r) ≡ find_user r
unfolding find_user
find_user-reverse_aux [] r h = refl
find_user-reverse_aux (m ∷ ms) r h = ground (arith, find_user-reverse_aux ms (m ∷ r))

find_user-last :
    (ms : List Fields) (m : Fields) (reply r : List Fields)
    → is_user m ≡ true
    → any is_user reply ≡ false
    → find_user (reverse_aux (ms ++ m ∷ reply) r) ≡ some m
unfolding find_user
find_user-last [] m reply r u h = find_user-reverse_aux reply (m ∷ r) h ∙ ground arith
find_user-last (x ∷ ms) m reply r u h = find_user-last ms m reply (x ∷ r) u h

-- Where a conversation has a user message, a further user message and any replies to it leave the anchor
-- of the conversation as it was, and the text that the turn sends is the further message's.
pub extract_last_user_message-append :
    (ms : List Fields) (m : Fields) (reply : List Fields)
    → any is_user ms ≡ true
    → is_user m ≡ true
    → any is_user reply ≡ false
    → (extract_first_user_message (ms ++ m ∷ reply) ≡ extract_first_user_message ms)
      × (extract_last_user_message (ms ++ m ∷ reply) ≡ extract_text (get_or_null "content" m))
unfolding extract_first_user_message extract_last_user_message
extract_last_user_message-append ms m reply history user replies = (
  ap (text_or (ok "")) (find_user-append ms (m ∷ reply) history),
  ap (text_or _) (find_user-last ms m reply [] user replies),
)
