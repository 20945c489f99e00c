-- ===== src/Client/Stream/Follows.antt =====
-- src/acp_proxy/client.py: how the start, the epoch, the rounds and the end of a prompt move its channel.
use acp_test.Base.{
  ℕ, ◌≡◌, refl, sym, ap, subst, ◌∙◌, String, true, not, ◌&&◌, ◌||◌, Option, none, some, List, [],
  ◌∷◌, inl, inr, ◌is◌, if_both, if_true, if_false, Bool-cases, ltb,
}
use acp_test.Dict
use acp_test.Dict.{get-put_own, get-put_other, is_some}
use acp_test.Dict.Removal.{get-remove_own, get-remove_other}
use acp_test.Json.{Fields}
use acp_test.Transport.{has_pending_incoming_requests}
use acp_test.Client.{
  Client, PromptPhase, preparing, active, terminal, QueueItem, terminal_marker, revoke, Queue,
  is_full, enqueue,
}
use acp_test.Client.Bounds.{Same}
use acp_test.Client.Channel.{
  Acts-Same, concerns_one, Moves, Follows, moved, view, queued, view-Follows, revoke-Follows,
  Action, Acts, performs_one, own_action, begins, internal, consumes, finishes, refuses,
  finds_empty, finds_none, registers, prepares, opens, closes, overflows, takes, ends,
}
use acp_test.Client.Updates.{is_active}
use acp_test.Client.Updates.Admission.{is_active-phase}
use acp_test.Client.Stream.{
  Start, take_from, take_item, register, prepare, open_budget, start_prompt, end_prompt, open_epoch,
  observe_request_sent, close_queue, close_found, close_epoch, observe_prompt_response, take_update,
  queue_for, is_free, set_phase, is_preparing, session_of,
}

empty : (n : Option ℕ) → some ((queue_for n).items) ≡ some []
empty none = refl
empty (some n) = refl

register-Acts :
    (s t : String) (n : Option ℕ) (c : Client) → Acts (own_action t s begins) s c (register t n c)
register-Acts s t n c =
    performs_one s t c (register t n c) refl
      (moved refl refl refl (ap queued (get-put_own c.update_queues t (queue_for n)) ∙ empty n)
        (registers _ _))
      (λ other. refl) (get-put_other c.update_queues t s (queue_for n))

prepared-Acts :
    (s t : String) (n : Option ℕ) (c : Client)
    → Acts (own_action t s begins) s c (prepare t (register t n c))
prepared-Acts s t n c =
    performs_one s t c (prepare t (register t n c)) refl
      (moved refl refl (get-put_own c.prompt_phases t preparing)
        (ap queued (get-put_own c.update_queues t (queue_for n)) ∙ empty n) (prepares _ _))
      (get-put_other c.prompt_phases t s preparing)
      (get-put_other c.update_queues t s (queue_for n))

register_revoked :
    (s t : String) (n : Option ℕ) (c : Client) (reason : String)
    → Acts (own_action t s begins) s c (revoke reason (register t n c))
unfolding Same revoke
register_revoked s t n c reason =
    Acts-Same _ s c (register t n c) (revoke reason (register t n c)) (register-Acts s t n c)
      (refl, refl, refl, refl)

open_budget-Acts :
    (a : Action) (s t : String) (bytes count : Option ℕ) (c d : Client)
    → Acts a s c d
    → Acts a s c (open_budget t bytes count d).0
unfolding open_budget Acts
open_budget-Acts a s t none n c d h = h
open_budget-Acts a s t (some bytes) none c d h = h
open_budget-Acts a s t (some bytes) (some n) c d h =
    if_both (λ (r : Client × Start). Acts a s c r.0) (ltb bytes 1 || ltb n 1) h h

pub start_prompt-Acts :
    (s t : String) (bytes count : Option ℕ) (c : Client)
    → Acts (own_action t s begins) s c (start_prompt t bytes count c).0
unfolding start_prompt
start_prompt-Acts s t bytes count c =
    let P : Client × Start → Type 0 = λ r. Acts (own_action t s begins) s c r.0 in
    if_both P (not (is_some (Dict.get c.sessions t)))
      (performs_one s t c c refl (refuses _) (λ other. refl) (λ other. refl))
      (if_both P (not c.direct) (register-Acts s t count c) (
        if_both P (not (is_free (Dict.get c.prompt_phases t))) (register_revoked s t count c _) (
          open_budget-Acts _ s t bytes count c (prepare t (register t count c))
            (prepared-Acts s t count c))))

set_phase-view :
    (s t : String) (p : PromptPhase) (c : Client)
    → Moves internal (view t c) (view t (set_phase p t c))
    → Follows s c (set_phase p t c)
set_phase-view s t p c m =
    concerns_one s t c (set_phase p t c) refl m (get-put_other c.prompt_phases t s p)
      (λ other. refl)

is_preparing-phase : (o : Option PromptPhase) → is_preparing o ≡ true → o ≡ some preparing
is_preparing-phase none e = cc
is_preparing-phase (some active) e = cc
is_preparing-phase (some preparing) e = refl
is_preparing-phase (some terminal) e = cc

open_epoch-Follows : (s : String) (o : Option String) (c : Client) → Follows s c (open_epoch o c)
unfolding open_epoch
open_epoch-Follows s none c = revoke-Follows s c _
open_epoch-Follows s (some t) c = elim (Bool-cases (is_preparing (Dict.get c.prompt_phases t))) [
  | inl e ↦ subst (Follows s c) (sym (if_true _ (set_phase active t c) _ e)) (
      set_phase-view s t active c
        (moved (is_preparing-phase _ e) refl (get-put_own c.prompt_phases t active) refl (opens _)))
  | inr e ↦ subst (Follows s c) (sym (if_false _ _ _ e)) (revoke-Follows s c _)
]

pub observe_request_sent-Follows :
    (s method : String) (params : Option Fields) (c : Client)
    → Follows s c (observe_request_sent method params c)
unfolding observe_request_sent
observe_request_sent-Follows s method params c =
    if_both (Follows s c) (c.direct && (method is "session/prompt"))
      (open_epoch-Follows s (session_of params) c) (view-Follows s c c refl refl refl)

abbrev closed : String → Queue → Client → Client
closed t q c =
    set_phase terminal t
      (record c { update_queues = Dict.put c.update_queues t (enqueue terminal_marker q) })

-- The end of an epoch, with the marker or without it.
closed-Follows :
    (s t : String) (q : Queue) (c : Client)
    → Dict.get c.prompt_phases t ≡ some active
    → Dict.get c.update_queues t ≡ some q
    → Follows s c (closed t q c)
closed-Follows s t q c opened found =
    concerns_one s t c (closed t q c) refl
      (moved opened (ap queued found) (get-put_own c.prompt_phases t terminal)
        (ap queued (get-put_own c.update_queues t (enqueue terminal_marker q))) (closes q.items))
      (get-put_other c.prompt_phases t s terminal)
      (get-put_other c.update_queues t s (enqueue terminal_marker q))

close_queue-Follows :
    (s t : String) (q : Queue) (c : Client)
    → Dict.get c.prompt_phases t ≡ some active
    → Dict.get c.update_queues t ≡ some q
    → Follows s c (close_queue t q c)
unfolding close_queue Same revoke
close_queue-Follows s t q c opened found =
    if_both (Follows s c) (is_full q)
      (Acts-Same _ s c (set_phase terminal t c) (revoke _ (set_phase terminal t c))
        (set_phase-view s t terminal c
          (moved opened refl (get-put_own c.prompt_phases t terminal) refl (overflows _)))
        (refl, refl, refl, refl))
      (closed-Follows s t q c opened found)

close_found-Follows :
    (s t : String) (o : Option Queue) (c : Client)
    → Dict.get c.update_queues t ≡ o
    → Follows s c (close_found t o c)
unfolding close_found
close_found-Follows s t none c e = revoke-Follows s c _
close_found-Follows s t (some q) c e = elim (Bool-cases (is_active (Dict.get c.prompt_phases t))) [
  | inl opened ↦
      subst (Follows s c) (sym (if_true _ (close_queue t q c) _ opened))
        (close_queue-Follows s t q c (is_active-phase _ opened) e)
  | inr shut ↦ subst (Follows s c) (sym (if_false _ _ _ shut)) (revoke-Follows s c _)
]

close_epoch-Follows : (s : String) (o : Option String) (c : Client) → Follows s c (close_epoch o c)
unfolding close_epoch
close_epoch-Follows s none c = revoke-Follows s c _
close_epoch-Follows s (some t) c =
    if_both (Follows s c) (has_pending_incoming_requests t c.transport) (revoke-Follows s c _)
      (close_found-Follows s t (Dict.get c.update_queues t) c refl)

pub observe_prompt_response-Follows :
    (s : String) (params : Option Fields) (c : Client)
    → Follows s c (observe_prompt_response params c)
unfolding observe_prompt_response
observe_prompt_response-Follows s params c = close_epoch-Follows s (session_of params) c

take_item-Acts :
    (s t : String) (q : Queue) (l : List QueueItem) (c : Client)
    → Dict.get c.update_queues t ≡ some q
    → q.items ≡ l
    → Acts (own_action t s (consumes (take_item t q l c).1)) s c (take_item t q l c).0
unfolding take_item
take_item-Acts s t q [] c found e =
    performs_one s t c c refl
      (moved refl (ap queued found ∙ ap some e) refl (ap queued found ∙ ap some e) (finds_empty _))
      (λ other. refl) (λ other. refl)
take_item-Acts s t q (i ∷ rest) c found e =
    performs_one s t c (take_item t q (i ∷ rest) c).0 refl
      (moved refl (ap queued found ∙ ap some e) refl
        (ap queued (get-put_own c.update_queues t (record q { items = rest }))) (takes _ i rest))
      (λ other. refl) (get-put_other c.update_queues t s (record q { items = rest }))

take_from-Acts :
    (s t : String) (o : Option Queue) (c : Client)
    → Dict.get c.update_queues t ≡ o
    → Acts (own_action t s (consumes (take_from t o c).1)) s c (take_from t o c).0
unfolding take_from
take_from-Acts s t none c e =
    performs_one s t c c refl (moved refl (ap queued e) refl (ap queued e) (finds_none _))
      (λ other. refl) (λ other. refl)
take_from-Acts s t (some q) c e = take_item-Acts s t q q.items c e refl

pub take_update-Acts :
    (s t : String) (c : Client)
    → Acts (own_action t s (consumes (take_update t c).1)) s c (take_update t c).0
unfolding take_update
take_update-Acts s t c = take_from-Acts s t (Dict.get c.update_queues t) c refl

pub end_prompt-Acts :
    (s t : String) (c : Client) → Acts (own_action t s finishes) s c (end_prompt t c)
unfolding end_prompt
end_prompt-Acts s t c =
    performs_one s t c (end_prompt t c) refl
      (moved refl refl refl (ap queued (get-remove_own c.update_queues t)) (ends _ _))
      (λ other. refl) (get-remove_other c.update_queues t s)
