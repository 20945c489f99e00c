-- ===== src/Client/Channel.antt =====
-- src/acp_proxy/client.py: a prompt as its consumer sees it: the phase of its session and what its queue holds.
pub mod Order
use acp_test.Base.{
  ◌∙◌, is_cases, is_refl, if_true, if_false, if◌then◌else◌, ◌is◌, false, inl, inr, ◌≡◌, refl, sym,
  subst, ap, Option, none, some, List, [], ◌∷◌, ◌++◌, String,
}
use mathlib.Core.Option
use acp_test.Dict
use acp_test.Json.{Fields}
use acp_test.Client.{
  Client, PromptPhase, preparing, active, terminal, Queue, QueueItem, update, terminal_marker,
  revoke,
}
use acp_test.Client.Bounds.{Same}
use acp_test.Client.Stream.{Round, round_of, polls}

pub record Channel : Type 0 where
  pub phase : Option PromptPhase
  pub items : Option (List QueueItem)

abbrev pub channel : Option PromptPhase → Option (List QueueItem) → Channel
channel p l = record { phase = p; items = l }

-- What a client holds for a session.
abbrev pub queued : Option Queue → Option (List QueueItem)
queued none = none
queued (some q) = some q.items

abbrev pub view : String → Client → Channel
view s c = channel (Dict.get c.prompt_phases s) (queued (Dict.get c.update_queues s))

-- What a step of the client is for the session: a prompt of it begins, its consumer takes a round with an
-- outcome, its prompt ends, the client is cleared, or anything else.
pub data Action : Type 0 where
  begins : Action
  consumes : Round → Action
  finishes : Action
  clears : Action
  internal : Action

-- What each action may do to a channel: only a consumption takes an item, the oldest, and its outcome is that
-- item's; only the begin, the end or the clearing of a prompt drop what is queued.
pub data Moves : Action → Channel → Channel → Type 0 where
  stays : (k : Channel) → Moves internal k k
  opens :
      (l : Option (List QueueItem))
      → Moves internal (channel (some preparing) l) (channel (some active) l)
  appends :
      (u : Fields) (l : List QueueItem)
      → Moves internal
          (channel (some active) (some l))
          (channel (some active) (some (l ++ update u ∷ [])))
  closes :
      (l : List QueueItem)
      → Moves internal
          (channel (some active) (some l))
          (channel (some terminal) (some (l ++ terminal_marker ∷ [])))
  overflows :
      (l : Option (List QueueItem))
      → Moves internal (channel (some active) l) (channel (some terminal) l)
  refuses : (k : Channel) → Moves begins k k
  registers :
      (p : Option PromptPhase) (l : Option (List QueueItem))
      → Moves begins (channel p l) (channel p (some []))
  prepares :
      (p : Option PromptPhase) (l : Option (List QueueItem))
      → Moves begins (channel p l) (channel (some preparing) (some []))
  takes :
      (p : Option PromptPhase) (i : QueueItem) (l : List QueueItem)
      → Moves (consumes (round_of i)) (channel p (some (i ∷ l))) (channel p (some l))
  finds_empty :
      (p : Option PromptPhase) → Moves (consumes polls) (channel p (some [])) (channel p (some []))
  finds_none : (p : Option PromptPhase) → Moves (consumes polls) (channel p none) (channel p none)
  ends :
      (p : Option PromptPhase) (l : Option (List QueueItem))
      → Moves finishes (channel p l) (channel p none)
  aborts : (k : Channel) → Moves clears k (channel none none)

-- The moves of some actions, one after the other.
pub data Runs : List Action → Channel → Channel → Type 0 where
  finished : (k : Channel) → Runs [] k k
  moves :
      {a : Action} {l : List Action} {k m n : Channel} → Moves a k m → Runs l m n → Runs (a ∷ l) k n

pub moved :
    {a : Action} {p p' r r' : Option PromptPhase} {l l' n n' : Option (List QueueItem)}
    → p ≡ p'
    → l ≡ l'
    → r ≡ r'
    → n ≡ n'
    → Moves a (channel p' l') (channel r' n')
    → Moves a (channel p l) (channel r n)
moved e f g h m = rw (e, f, g, h) m

-- Another client of the same mode, one move further on for the session.
unfoldable pub Acts : Action → String → Client → Client → Type 0
Acts a s c after = (after.direct ≡ c.direct) × Moves a (view s c) (view s after)

abbrev pub Follows : String → Client → Client → Type 0
Follows s c after = Acts internal s c after

-- An action that concerns the session t, for the session s.
abbrev pub own_action : String → String → Action → Action
own_action t s a = if t is s then a else internal

pub view-Follows :
    (s : String) (c after : Client)
    → after.direct ≡ c.direct
    → Dict.get after.prompt_phases s ≡ Dict.get c.prompt_phases s
    → Dict.get after.update_queues s ≡ Dict.get c.update_queues s
    → Follows s c after
unfolding Acts
view-Follows s c after d e f = (d, moved refl refl e (ap queued f) (stays (view s c)))

pub Same-Follows : (s : String) (c after : Client) → Same c after → Follows s c after
unfolding Same
Same-Follows s c after (e, f, g, d) =
    view-Follows s c after d (ap (λ p. Dict.get p s) g) (ap (λ q. Dict.get q s) e)

pub revoke-Follows : (s : String) (c : Client) (reason : String) → Follows s c (revoke reason c)
unfolding revoke
revoke-Follows s c reason = view-Follows s c (revoke reason c) refl refl refl

-- A part that leaves the channel as it is, before or after the rest.
pub Acts-Same :
    (a : Action) (s : String) (c middle after : Client)
    → Acts a s c middle
    → Same middle after
    → Acts a s c after
unfolding Acts Same
Acts-Same a s c middle after (d, m) (e, f, g, h) =
    (h ∙ d, moved refl refl (ap (λ p. Dict.get p s) g) (ap (λ q. queued (Dict.get q s)) e) m)

-- A part that concerns one session.
pub concerns_one :
    (s t : String) (c after : Client)
    → after.direct ≡ c.direct
    → Moves internal (view t c) (view t after)
    → ((t is s) ≡ false → Dict.get after.prompt_phases s ≡ Dict.get c.prompt_phases s)
    → ((t is s) ≡ false → Dict.get after.update_queues s ≡ Dict.get c.update_queues s)
    → Follows s c after
unfolding Acts
concerns_one s t c after d m e f = elim (is_cases t s) [
  | inl own ↦
      subst (λ z. (after.direct ≡ c.direct) × Moves internal (view z c) (view z after)) own (d, m)
  | inr other ↦ view-Follows s c after d (e other) (f other)
]

pub performs_one :
    {a : Action} (s t : String) (c after : Client)
    → after.direct ≡ c.direct
    → Moves a (view t c) (view t after)
    → ((t is s) ≡ false → Dict.get after.prompt_phases s ≡ Dict.get c.prompt_phases s)
    → ((t is s) ≡ false → Dict.get after.update_queues s ≡ Dict.get c.update_queues s)
    → Acts (own_action t s a) s c after
unfolding Acts
performs_one {a} s t c after d m e f = elim (is_cases t s) [
  | inl own ↦
      subst (λ b. Acts b s c after)
        (sym (if_true (t is s) a internal (sym (ap (λ z. t is z) own) ∙ is_refl t)))
        (subst (λ z. (after.direct ≡ c.direct) × Moves a (view z c) (view z after)) own (d, m))
  | inr other ↦
      subst (λ b. Acts b s c after) (sym (if_false (t is s) a internal other))
        (view-Follows s c after d (e other) (f other))
]
