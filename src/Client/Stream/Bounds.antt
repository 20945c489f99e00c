-- ===== src/Client/Stream/Bounds.antt =====
-- src/acp_proxy/client.py: a prompt keeps the queues and the budgets of its client within their limits.
use acp_test.Base.{
  ℕ, String, ◌≡◌, refl, ap, not, ◌&&◌, ◌||◌, Option, none, some, List, [], ◌∷◌, length, arith, inl,
  inr, ltb, ◌is◌, if_both, Bool-cases,
}
use acp_test.Dict
use acp_test.Dict.{is_some}
use acp_test.Dict.Removal.{put-Every, remove-Every}
use acp_test.Json.{Fields}
use acp_test.Transport.{has_pending_incoming_requests}
use acp_test.Client.{
  Client, Queue, QueueItem, PromptPhase, active, terminal, terminal_marker, is_full,
}
use acp_test.Client.Bounds.{IsWithin, IsKept, IsBounded, enqueue-IsWithin, revoke-IsBounded}
use acp_test.Client.Updates.{is_active}
use acp_test.Client.Stream.{
  Start, take_from, register, prepare, open_budget, start_prompt, end_prompt, open_epoch,
  observe_request_sent, close_queue, close_found, close_epoch, observe_prompt_response, take_update,
  take_item, queue_for, is_free, set_phase, is_preparing, session_of,
}

queue_for-IsWithin : (n : Option ℕ) → IsWithin (queue_for n)
queue_for-IsWithin none = inl refl
queue_for-IsWithin (some n) = inr (omega arith)

register-IsBounded :
    (s : String) (n : Option ℕ) (c : Client) → IsBounded c → IsBounded (register s n c)
unfolding IsBounded
register-IsBounded s n c h =
    (put-Every IsWithin c.update_queues s _ h.0 (queue_for-IsWithin n), h.1)

prepare-IsBounded : (s : String) (c : Client) → IsBounded c → IsBounded (prepare s c)
unfolding IsBounded
prepare-IsBounded s c h = h

open_budget-IsBounded :
    (s : String) (bytes count : Option ℕ) (c : Client)
    → IsBounded c
    → IsBounded (open_budget s bytes count c).0
unfolding open_budget IsBounded
open_budget-IsBounded s none n c h = h
open_budget-IsBounded s (some bytes) none c h = h
open_budget-IsBounded s (some bytes) (some n) c h =
    if_both (λ (r : Client × Start). IsBounded r.0) (ltb bytes 1 || ltb n 1) h
      (h.0, put-Every IsKept c.update_budgets s _ h.1 (omega arith, omega arith))

pub start_prompt-IsBounded :
    (s : String) (bytes count : Option ℕ) (c : Client)
    → IsBounded c
    → IsBounded (start_prompt s bytes count c).0
unfolding start_prompt
start_prompt-IsBounded s bytes count c h =
    let registered = register-IsBounded s count c h in
    if_both (λ (r : Client × Start). IsBounded r.0) (not (is_some (Dict.get c.sessions s))) h
      (if_both (λ (r : Client × Start). IsBounded r.0) (not c.direct) registered
        (if_both (λ (r : Client × Start). IsBounded r.0)
          (not (is_free (Dict.get c.prompt_phases s)))
          (revoke-IsBounded _ (register s count c) registered)
          (open_budget-IsBounded s bytes count (prepare s (register s count c))
            (prepare-IsBounded s (register s count c) registered))))

pub end_prompt-IsBounded : (s : String) (c : Client) → IsBounded c → IsBounded (end_prompt s c)
unfolding end_prompt IsBounded
end_prompt-IsBounded s c h =
    (remove-Every IsWithin c.update_queues s h.0, remove-Every IsKept c.update_budgets s h.1)

set_phase-IsBounded :
    (p : PromptPhase) (s : String) (c : Client) → IsBounded c → IsBounded (set_phase p s c)
unfolding IsBounded
set_phase-IsBounded p s c h = h

open_epoch-IsBounded : (o : Option String) (c : Client) → IsBounded c → IsBounded (open_epoch o c)
unfolding open_epoch
open_epoch-IsBounded none c h = revoke-IsBounded _ c h
open_epoch-IsBounded (some s) c h =
    if_both IsBounded (is_preparing (Dict.get c.prompt_phases s)) (set_phase-IsBounded active s c h)
      (revoke-IsBounded _ c h)

pub observe_request_sent-IsBounded :
    (method : String) (params : Option Fields) (c : Client)
    → IsBounded c
    → IsBounded (observe_request_sent method params c)
unfolding observe_request_sent
observe_request_sent-IsBounded method params c h =
    if_both IsBounded (c.direct && (method is "session/prompt")) (open_epoch-IsBounded _ c h) h

close_queue-IsBounded :
    (s : String) (q : Queue) (c : Client) → IsBounded c → IsBounded (close_queue s q c)
unfolding close_queue IsBounded
close_queue-IsBounded s q c h = elim (Bool-cases (is_full q)) [
  | inl full ↦ rw full (revoke-IsBounded _ (set_phase terminal s c) h)
  | inr room ↦
      rw room
        (put-Every IsWithin c.update_queues s _ h.0 (enqueue-IsWithin terminal_marker q room), h.1)
]

close_found-IsBounded :
    (s : String) (q : Option Queue) (c : Client) → IsBounded c → IsBounded (close_found s q c)
unfolding close_found
close_found-IsBounded s none c h = revoke-IsBounded _ c h
close_found-IsBounded s (some q) c h =
    if_both IsBounded (is_active (Dict.get c.prompt_phases s)) (close_queue-IsBounded s q c h)
      (revoke-IsBounded _ c h)

close_epoch-IsBounded : (o : Option String) (c : Client) → IsBounded c → IsBounded (close_epoch o c)
unfolding close_epoch
close_epoch-IsBounded none c h = revoke-IsBounded _ c h
close_epoch-IsBounded (some s) c h =
    if_both IsBounded (has_pending_incoming_requests s c.transport) (revoke-IsBounded _ c h)
      (close_found-IsBounded s _ c h)

pub observe_prompt_response-IsBounded :
    (params : Option Fields) (c : Client)
    → IsBounded c
    → IsBounded (observe_prompt_response params c)
unfolding observe_prompt_response
observe_prompt_response-IsBounded params c h = close_epoch-IsBounded (session_of params) c h

-- Without its oldest item a queue is within its size.
rest-IsWithin :
    (q : Queue) (i : QueueItem) (l : List QueueItem)
    → q.items ≡ i ∷ l
    → IsWithin q
    → IsWithin (record q { items = l })
rest-IsWithin q i l e (inl unbounded) = inl unbounded
rest-IsWithin q i l e (inr h) = inr (omega (arith, h, ap length e))

take_from-IsBounded :
    (s : String) (o : Option Queue) (c : Client)
    → Dict.get c.update_queues s ≡ o
    → IsBounded c
    → IsBounded (take_from s o c).0
unfolding take_from take_item IsBounded
take_from-IsBounded s none c e h = h
take_from-IsBounded s (some q) c e h = taken q.items refl h
  where
    taken : (l : List QueueItem) → q.items ≡ l → IsBounded c → IsBounded (take_item s q l c).0
    taken [] f h = h
    taken (i ∷ rest) f h =
        (put-Every IsWithin c.update_queues s _ h.0 (rest-IsWithin q i rest f (h.0 s q e)), h.1)

pub take_update-IsBounded : (s : String) (c : Client) → IsBounded c → IsBounded (take_update s c).0
unfolding take_update
take_update-IsBounded s c h = take_from-IsBounded s (Dict.get c.update_queues s) c refl h
