-- ===== src/Client/Bounds.antt =====
-- src/acp_proxy/client.py: the bounds of the queues and of the budgets of a client, and what keeps them.
use acp_test.Base.{
  ◌∙◌, ◌≤◌, String, ◌≡◌, sym, subst, false, [], ◌∷◌, length, length-append, arith, ◌⊎◌,
}
use acp_test.Dict.{Dict}
use acp_test.Dict.Removal.{Every}
use acp_test.Client.{Client, Budget, Queue, QueueItem, is_full, enqueue, put_nowait, revoke}

-- A queue of a maximal size holds no more than that.
abbrev pub IsWithin : Queue → Type 0
IsWithin q = (q.maxsize ≡ 0) ⊎ (length q.items ≤ q.maxsize)

-- A budget has not charged more than its limits.
abbrev pub IsKept : Budget → Type 0
IsKept b = (b.bytes ≤ b.byte_limit) × (b.count ≤ b.count_limit)

abbrev pub AreBounded : Dict Queue → Dict Budget → Type 0
AreBounded queues budgets = Every IsWithin queues × Every IsKept budgets

unfoldable pub IsBounded : Client → Type 0
IsBounded c = AreBounded c.update_queues c.update_budgets

pub put_nowait-IsWithin : (i : QueueItem) (q : Queue) → IsWithin q → IsWithin (put_nowait i q)
put_nowait-IsWithin i q h = ground (arith, length-append q.items (i ∷ []))

pub enqueue-IsWithin : (i : QueueItem) (q : Queue) → is_full q ≡ false → IsWithin (enqueue i q)
enqueue-IsWithin i q h = ground (arith, length-append q.items (i ∷ []))

-- The client after has the queues, the budgets, the phases and the mode of the one before.
unfoldable pub Same : Client → Client → Type 0
Same c after =
    (after.update_queues ≡ c.update_queues)
    × (after.update_budgets ≡ c.update_budgets)
    × (after.prompt_phases ≡ c.prompt_phases)
    × (after.direct ≡ c.direct)

pub Same-trans : (c middle after : Client) → Same c middle → Same middle after → Same c after
unfolding Same
Same-trans c middle after (e, f, g, h) (e', f', g', h') = (e' ∙ e, f' ∙ f, g' ∙ g, h' ∙ h)

pub Same-IsBounded : (c after : Client) → Same c after → IsBounded c → IsBounded after
unfolding IsBounded Same
Same-IsBounded c after (e, f, g, d) h =
    (subst (Every IsWithin) (sym e) h.0, subst (Every IsKept) (sym f) h.1)

pub revoke-IsBounded : (reason : String) (c : Client) → IsBounded c → IsBounded (revoke reason c)
unfolding revoke IsBounded
revoke-IsBounded reason c h = h
