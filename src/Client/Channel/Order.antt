-- ===== src/Client/Channel/Order.antt =====
-- src/acp_proxy/client.py: where the terminal marker of a prompt stands in its queue.
use acp_test.Base.{
  ◌≡◌, refl, sym, ap, subst, Option, none, some, List, [], ◌∷◌, ◌++◌, All, ◌⊎◌, inl, inr,
}
use acp_test.Client.{PromptPhase, preparing, active, terminal, QueueItem, update, terminal_marker}
use acp_test.Client.Channel.{
  Channel, channel, Moves, Runs, stays, refuses, finds_empty, finds_none, Action, registers,
  prepares, opens, appends, closes, overflows, takes, ends, aborts, finished, moves,
}

abbrev pub IsUpdate : QueueItem → Type 0
IsUpdate (update u) = Unit
IsUpdate _ = ⊥

-- Updates alone, or updates and then the marker of an epoch that has ended.
-- The rest of a list
rest_of : List QueueItem → List QueueItem
rest_of [] = []
rest_of (x ∷ l) = l

tail : {i j : QueueItem} {l k : List QueueItem} → i ∷ l ≡ j ∷ k → l ≡ k
unfolding rest_of
tail e = ap rest_of e

abbrev pub Ordered : Option PromptPhase → Option (List QueueItem) → Type 0
Ordered p none = Unit
Ordered p (some l) =
    All IsUpdate l
    ⊎ ((p ≡ some terminal)
        × ((us : List QueueItem) × All IsUpdate us × (l ≡ us ++ terminal_marker ∷ [])))

unfoldable pub IsOrdered : Channel → Type 0
IsOrdered k = Ordered k.phase k.items

pub empty-IsOrdered : IsOrdered (channel none none)
unfolding IsOrdered
empty-IsOrdered = tt

All-append :
    (l : List QueueItem) (i : QueueItem) → All IsUpdate l → IsUpdate i → All IsUpdate (l ++ i ∷ [])
All-append [] i h j = (j, tt)
All-append (x ∷ l) i h j = (h.0, All-append l i h.1 j)

-- While an epoch has not ended, its queue holds updates alone.
unended :
    (p : PromptPhase) (l : List QueueItem)
    → (some p ≡ some terminal → ⊥)
    → Ordered (some p) (some l)
    → All IsUpdate l
unended p l n (inl h) = h
unended p l n (inr (e, rest)) = absurd (n e)

unended_queue :
    (p q : PromptPhase) (l : Option (List QueueItem))
    → (some p ≡ some terminal → ⊥)
    → Ordered (some p) l
    → Ordered (some q) l
unended_queue p q none n h = tt
unended_queue p q (some l) n h = inl (unended p l n h)

taken :
    (p : Option PromptPhase) (i : QueueItem) (l : List QueueItem)
    → Ordered p (some (i ∷ l))
    → Ordered p (some l)
taken p i l (inl h) = inl h.1
taken p i l (inr (e, (us, h, same))) = shifted us h same
  where
    shifted :
        (us : List QueueItem)
        → All IsUpdate us
        → i ∷ l ≡ us ++ terminal_marker ∷ []
        → Ordered p (some l)
    shifted [] h same = inl (subst (All IsUpdate) (sym (tail same)) tt)
    shifted (u ∷ us) h same = inr (e, (us, h.1, tail same))

Moves-IsOrdered : {a : Action} {k m : Channel} → Moves a k m → IsOrdered k → IsOrdered m
unfolding IsOrdered
Moves-IsOrdered (stays k) h = h
Moves-IsOrdered (refuses k) h = h
Moves-IsOrdered (finds_empty p) h = h
Moves-IsOrdered (finds_none p) h = h
Moves-IsOrdered (registers p l) h = inl tt
Moves-IsOrdered (prepares p l) h = inl tt
Moves-IsOrdered (opens l) h = unended_queue preparing active l (λ e. cc) h
Moves-IsOrdered (appends u l) h = inl (All-append l (update u) (unended active l (λ e. cc) h) tt)
Moves-IsOrdered (closes l) h = inr (refl, (l, unended active l (λ e. cc) h, refl))
Moves-IsOrdered (overflows l) h = unended_queue active terminal l (λ e. cc) h
Moves-IsOrdered (takes p i l) h = taken p i l h
Moves-IsOrdered (ends p l) h = tt
Moves-IsOrdered (aborts k) h = tt

pub Runs-IsOrdered : {l : List Action} {k m : Channel} → Runs l k m → IsOrdered k → IsOrdered m
Runs-IsOrdered (finished k) h = h
Runs-IsOrdered (moves m r) h = Runs-IsOrdered r (Moves-IsOrdered m h)
